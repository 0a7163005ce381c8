-- ===== src/Tests/Opening.antt =====
-- Opening the file of device 1, "migif1", closing it, and opening it again.
use memif_user_release.Base.{ℕ, ◌≡◌, refl, true, some, none, List, [], ◌∷◌}
use memif_user_release.Region.Run.{Yields}
use memif_user_release.Driver.Open.{Opening, debug_fnames, find_device, if_open}
use memif_user_release.Driver.Open.Devices.{Opened, if_open-Opened}
use memif_user_release.Tests.{region}

abbrev migif1 : List ℕ
migif1 = 109 ∷ 105 ∷ 103 ∷ 105 ∷ 102 ∷ 49 ∷ []

device_of_migif1 : find_device migif1 debug_fnames 0 ≡ some 1
unfolding find_device
device_of_migif1 = refl

abbrev start : Opening
start = record { private_data = none; region = region 1; chans = λ i. none }

open_example :
    Yields
      (λ ret s. (ret ≡ true) × Opened 1 7 65536 start s)
      (if_open 1 0 7 (some 65536) (some 3) migif1 start)
open_example = if_open-Opened 0 0 7 65536 3 1 migif1 start device_of_migif1 refl
