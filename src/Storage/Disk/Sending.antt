-- ===== src/Storage/Disk/Sending.antt =====
-- What holds of the files whenever a request is made.
use web_cloud_disk.Base.{Bytes}
use web_cloud_disk.Flow.{Flow, answer, call}
use web_cloud_disk.Backend.{Request, Reply}
use web_cloud_disk.Storage.Disk.{Files, Effect}

-- Each request is made where `at` holds, if the others keep `rely` before each call.
abbrev pub Meets :
    {A : Type 0}
    → Bytes
    → (Files → Files → Type 0)
    → (Files → Request → Type 0)
    → Files
    → Flow Request Reply A
    → Type 0
Meets drawn rely at f (answer a) = Unit
Meets drawn rely at f (call c k) =
    (f₁ : Files)
    → rely f f₁
    → at f₁ c × ((r : Reply c) (f₂ : Files) → Effect drawn f₁ c r f₂ → Meets drawn rely at f₂ (k r))
