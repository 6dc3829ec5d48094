-- ===== src/Phase3/Kept.antt =====
-- A method on the ledger and the disk that reaches the ledger only through the store.
use hermes_agentic_variation.Base.Result.{Result, ok, err}
use hermes_agentic_variation.Contracts.Identity.{Hashing}
use hermes_agentic_variation.Effect.{Effect, continue, lift, gets, on_first, on_second, ◌>>=◌}
use hermes_agentic_variation.Phase3.Methods.{World}
use hermes_agentic_variation.Storage.Calls.Through.{Left, Left-refl, Left-trans, Through}
use hermes_agentic_variation.Storage.Monad.{Action}
use hermes_agentic_variation.Storage.Tables.{Database}
use hermes_agentic_variation.Workspace.Files.{FileSystem}

-- A method on the ledger and the disk: whatever it answers and does to the disk, it leaves the
-- ledger that calls of the store leave.
module _ (F : FileSystem) (h : Hashing) where
  abbrev pub Kept : {A : Type 0} → Effect (World F) A → Type 0
  Kept m = (w : World F) → Left h w.0 (m w).1.0

  continue-Left :
      {A B : Type 0} (db : Database) (x : Result A × World F) (f : A → Effect (World F) B)
      → Left h db x.1.0
      → ((a : A) → Kept (f a))
      → Left h db (continue x f).1.0
  continue-Left db (ok a, w) f p q = Left-trans h db w.0 (f a w).1.0 p (q a w)
  continue-Left db (err e, w) f p q = p

  pub bind-Kept :
      {A B : Type 0} (m : Effect (World F) A) (f : A → Effect (World F) B)
      → Kept m
      → ((a : A) → Kept (f a))
      → Kept (m >>= f)
  bind-Kept m f p q w = continue-Left w.0 (m w) f (p w) q

  module _ {A B : Type 0} (f : A → Effect (World F) B) (q : (a : A) → Kept (f a)) where
    pub lift-Kept : (r : Result A) → Kept (lift r >>= f)
    lift-Kept r w = continue-Left w.0 (r, w) f (Left-refl h w.0) q

    pub read-Kept : (r : World F → Result A) → Kept (gets r >>= λ x. lift x >>= f)
    read-Kept r w = continue-Left w.0 (r w, w) f (Left-refl h w.0) q

    pub first-Kept : (m : Action A) → Through h m → Kept (on_first m >>= f)
    first-Kept m t w = continue-Left w.0 (on_first m w) f (t w.0) q

    pub second-Kept : (m : Effect F.Disk A) → Kept (on_second m >>= f)
    second-Kept m w = continue-Left w.0 (on_second m w) f (Left-refl h w.0) q
