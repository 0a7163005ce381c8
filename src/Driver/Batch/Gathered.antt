-- ===== src/Driver/Batch/Gathered.antt =====
-- What the older flushing makes of a list of requests.
use memif_user_release.Base.{◌+◌, ◌≡◌, true, List, [], ◌∷◌, ◌++◌, arith, length}
use memif_user_release.Desc.{Desc}
use memif_user_release.Region.Run.{ok, Code}
use memif_user_release.Region.View.{Payload, payload}
use memif_user_release.Driver.Batch.{BatchEvent, State, Batch}

-- What is done with requests: `effect` on what was made, and the events, if they fit.
pub record Adds {G : Type 0} (add : Desc → G → Code State G) (effect : Payload → G → G)
    (log : Payload → G → List BatchEvent) (Fits : Payload → G → Type 0) : Type 0 where
  pub adds :
      (d : Desc) (g : G) (s : State)
      → Fits (payload d) g
      → add d g s ≡ ok (effect (payload d) g) (record s { events = log (payload d) g ++ s.events })

module _ {G : Type 0} (effect : Payload → G → G) where
  abbrev pub added : Batch G → Payload → Batch G
  added b x = record { table = true; count = b.count + 1; made = effect x b.made }

  -- The batch after all requests.
  abbrev pub gathered : Batch G → List Payload → Batch G
  gathered b [] = b
  gathered b (x ∷ xs) = gathered (added b x) xs

  -- The log after all requests.
  abbrev pub logged :
      (Payload → G → List BatchEvent) → G → List Payload → List BatchEvent → List BatchEvent
  logged log g [] es = es
  logged log g (x ∷ xs) es = logged log (effect x g) xs (log x g ++ es)

  abbrev pub AllFit : (Payload → G → Type 0) → G → List Payload → Type 0
  AllFit Fits g [] = Unit
  AllFit Fits g (x ∷ xs) = Fits x g × AllFit Fits (effect x g) xs

  pub gathered_count :
      (b : Batch G) (xs : List Payload) → (gathered b xs).count ≡ b.count + length xs
  gathered_count b [] = omega arith
  gathered_count b (x ∷ xs) = omega (arith, gathered_count (added b x) xs)
