-- ===== src/Server/Room/Steps.antt =====
-- A handler that answered has passed each of its steps.
use telegent.Base.{if◌then◌else◌, Result, ok, err, ◌≡◌, refl, ap}
use telegent.Server.Errors.{HttpError}
use telegent.Server.Room.{RoomServer, Handler, ◌then◌, continue}

-- The value and the state that the first step handed on.
abbrev pub Passed {ℓ κ} :
    {A : Type ℓ} {B : Type κ} → Handler A → (A → Handler B) → RoomServer → Type (ℓ ⊔ κ)
Passed {A = A} m f s = (a : A) × (t : RoomServer) × (m s ≡ (ok a, t)) × ((m then f) s ≡ f a t)

pub then-Passed {ℓ κ} :
    {A : Type ℓ} {B : Type κ} (m : Handler A) (f : A → Handler B) (s : RoomServer) (b : B)
    → ((m then f) s).0 ≡ ok b
    → Passed m f s
then-Passed m f s b e = by_result (m s) refl e
  where
    by_result :
        (r : Result HttpError _ × RoomServer) → m s ≡ r → (continue f r).0 ≡ ok b → Passed m f s
    by_result (err x, t) same k = cc
    by_result (ok a, t) same k = (a, t, same, ap (continue f) same)
