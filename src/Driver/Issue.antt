-- ===== src/Driver/Issue.antt =====
-- The call through `issue_one_desc_func` of migrate-x86/migrate-x86.c, with the two functions that
-- it can name.
use memif_user_release.Base.{ℕ, Bool, true, false, List, []}
use memif_user_release.Region.Run.{Outcome, ok, bug, spinning, Code}
use memif_user_release.Driver.{IssueFunc, copy, mig, Table, Kernel}
use memif_user_release.Driver.Copy.{issue_one_desc_copy}
use memif_user_release.Driver.Migrate.{Mm, Migrating, issue_one_desc_mig}

-- What the flush sees of a migration.
abbrev pub seen : Outcome Migrating (Table × List (ℕ × ℕ)) → Outcome Kernel Table
seen (ok (table, pages) s) = ok table s.kernel
seen bug = bug
seen spinning = spinning

unfoldable pub issue_one_desc_func :
    Mm → IssueFunc → (desc : ℕ) → (do_irq : Bool) → Code Kernel Table
issue_one_desc_func m copy desc do_irq = issue_one_desc_copy m.machine true desc do_irq
issue_one_desc_func m mig desc do_irq = λ k.
    seen (issue_one_desc_mig m true desc do_irq (record { kernel = k; huge = false; ops = [] }))
