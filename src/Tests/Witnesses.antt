-- ===== src/Tests/Witnesses.antt =====
-- Concrete inputs on which the theorems of the libsmm files apply.
use memif_user_release.Base.{◌≡◌, refl, ◌^◌, arith}
use memif_user_release.Desc.{
  virt_base, set_virt_base, virt_to_base, base_to_virt, block_round_down, color_ker,
}
use memif_user_release.Desc.Fields.{base_to_virt-virt_to_base}
use memif_user_release.Region.{req, comp}
use memif_user_release.Region.Run.{Yields}
use memif_user_release.Region.View.{View}
use memif_user_release.FreeList.{freelist_add, freelist_remove}
use memif_user_release.FreeList.Add.{Added, freelist_add-Added}
use memif_user_release.FreeList.Remove.{Handed, freelist_remove-Handed}
use memif_user_release.Queue.{mig_enqueue, mig_dequeue, migqueue_set_color_if_empty}
use memif_user_release.Queue.Enqueue.{Delivered, mig_enqueue-Delivered}
use memif_user_release.Queue.Dequeue.{Taken, mig_dequeue-Taken}
use memif_user_release.Queue.Color.{Painted, set_color-Painted}
use memif_user_release.Init.{init_migregion}
use memif_user_release.Init.Fresh.{IsNewRegion}
use memif_user_release.Init.Whole.{init_migregion-IsNewRegion}
use memif_user_release.Tests.{to, memory, region, view, region-IsWellFormed}

dequeue_example : Yields (Taken req (view 1) (region 1)) (mig_dequeue 3 0 req (region 1))
dequeue_example =
    mig_dequeue-Taken 3 0 req (region-IsWellFormed 1 (omega arith)) (λ some_left. λ e. cc)
      (omega arith)

enqueue_example :
    Yields (Delivered req 6 (view 1) (region 1)) (mig_enqueue 2 (to 9 7) req 6 (region 1))
enqueue_example =
    mig_enqueue-Delivered 2 (to 9 7) req 6 (region-IsWellFormed 1 (omega arith)) refl (omega arith)
      (omega arith)

set_color_example :
    Yields
      (Painted comp color_ker (view 1) (region 1))
      (migqueue_set_color_if_empty 1 comp color_ker (region 1))
set_color_example =
    set_color-Painted 0 comp color_ker (region-IsWellFormed 1 (omega arith)) (omega arith)

freelist_add_example :
    Yields (λ _ r. (v : View) × Added 6 (view 1) (region 1) v r) (freelist_add 1 5 6 (region 1))
freelist_add_example =
    freelist_add-Added (region-IsWellFormed 1 (omega arith)) 5 6 0 refl (omega arith)

freelist_remove_example : Yields (Handed (view 1) (region 1)) (freelist_remove 1 (region 1))
freelist_remove_example = freelist_remove-Handed 0 (region-IsWellFormed 1 (omega arith))

init_example :
    Yields (λ _ r. (v : View) × IsNewRegion (123) v r) (init_migregion 1 0 4096 (region 1))
init_example = init_migregion-IsNewRegion 0 0 4096 (region 1) refl (omega arith) (omega arith)

base_to_virt_example :
    base_to_virt (2 ^ 52) (virt_base (set_virt_base (virt_to_base 8200) (memory 1 0)))
    ≡ block_round_down 8200
base_to_virt_example =
    base_to_virt-virt_to_base (2 ^ 52) 8200 (memory 1 0) (omega arith) (omega arith)
