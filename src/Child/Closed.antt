-- ===== src/Child/Closed.antt =====
-- What a controller can rely on of an outcome that the adapter gives.
use Prim.Native.Char.{code}
use hermes_agentic_variation.Base.{
  ℕ, zero, suc, String, Bool, true, false, eq_iff, ◌==◌, Option, none, some, len, hex_digits,
  is_hex, Bool-cases, ◌≡◌, refl, ap, sym, inl, inr, arith,
}
use hermes_agentic_variation.Base.Logic.{and-true}
use hermes_agentic_variation.Base.Value.{Value, str}
use hermes_agentic_variation.Child.{Request, ChildOutcome}
use hermes_agentic_variation.Child.Adapter.{
  Terminal, Service, material, hash_in, result_hash_of, timeout_outcome, finished, after_cancel,
  after_result, after_wait, run,
}
use hermes_agentic_variation.Contracts.Identity.{Hashing}
use hermes_agentic_variation.Patch.Lines.{append}

hex_digits-len : (n : ℕ) (s : String) → hex_digits n s ≡ true → len s ≡ n
unfolding hex_digits
hex_digits-len zero String.[] h = refl
hex_digits-len zero (String.◌∷◌ c s) h = cc
hex_digits-len (suc n) String.[] h = cc
hex_digits-len (suc n) (String.◌∷◌ c s) h =
    ap suc (hex_digits-len n s (and-true (is_hex (code c)) (hex_digits n s) h).1)

of_text-len : (h : Hashing) (s : String) → len (h.of_text s) ≡ 64
of_text-len h s = hex_digits-len 64 (h.of_text s) (h.of_text-is_digest s)

hash_in-len : (h : Hashing) (s : String) (v : Value) → len (hash_in h s v) ≡ 64
hash_in-len h s (str t) = elim (Bool-cases (len t == 64)) [
  | inl e ↦ rw e (equal (len t) e)
  | inr e ↦ rw e (of_text-len h s)
]
  where
    equal : (n : ℕ) → (n == 64) ≡ true → n ≡ 64
    equal n e = ground arith
hash_in-len h s Value.null = of_text-len h s
hash_in-len h s _ = of_text-len h s

-- An outcome of the adapter.
pub record Closed (h : Hashing) (service : Service) (request : Request) (o : ChildOutcome)
    : Type 0 where
  pub hash_length : len o.result_hash ≡ 64
  pub success :
      o.terminal_state ≡ "SUCCEEDED"
      → (service.timed_out request ≡ some false)
        × (t : Terminal) × (service.result request ≡ some t)
        × (t.terminal_state ≡ "SUCCEEDED")
        × (o ≡ finished h t)

timeout-Closed :
    (h : Hashing) (service : Service) (request : Request)
    → Closed h service request (timeout_outcome h request)
unfolding timeout_outcome
timeout-Closed h service request = record {
  hash_length = of_text-len h (append "timeout:" request.correlation_id);
  success = λ e. absurd (never e);
}
  where
    never : ◌≡◌ {A = String} "FAILED" "SUCCEEDED" → ⊥
    never e = let q : false ≡ true = (eq_iff "FAILED" "SUCCEEDED").1 e in cc

finished-Closed :
    (h : Hashing) (service : Service) (request : Request) (t : Terminal)
    → service.timed_out request ≡ some false
    → service.result request ≡ some t
    → Closed h service request (finished h t)
unfolding finished result_hash_of
finished-Closed h service request t waited got = record {
  hash_length = hash_in-len h (material t) t.result_hash;
  success = λ e. (waited, t, got, e, refl);
}

after_result-Closed :
    (h : Hashing) (service : Service) (request : Request) (r : Option Terminal) (o : ChildOutcome)
    → service.timed_out request ≡ some false
    → service.result request ≡ r
    → after_result h r ≡ some o
    → Closed h service request o
unfolding after_result
after_result-Closed h service request none o waited got e = cc
after_result-Closed h service request (some t) o waited got e =
    let same : finished h t ≡ o = cc in
    rw (sym same) (finished-Closed h service request t waited got)

after_cancel-Closed :
    (h : Hashing) (service : Service) (request : Request) (c : Option (Unit {0})) (o : ChildOutcome)
    → after_cancel h request c ≡ some o
    → Closed h service request o
unfolding after_cancel
after_cancel-Closed h service request none o e = cc
after_cancel-Closed h service request (some u) o e =
    let same : timeout_outcome h request ≡ o = cc in
    rw (sym same) (timeout-Closed h service request)

after_wait-Closed :
    (h : Hashing) (service : Service) (request : Request) (w : Option Bool) (o : ChildOutcome)
    → service.timed_out request ≡ w
    → after_wait h service request w ≡ some o
    → Closed h service request o
unfolding after_wait
after_wait-Closed h service request none o waited e = cc
after_wait-Closed h service request (some true) o waited e =
    after_cancel-Closed h service request (service.cancel request) o e
after_wait-Closed h service request (some false) o waited e =
    after_result-Closed h service request (service.result request) o waited refl e

-- An outcome that the adapter gives has a result hash of 64 characters, whatever the service set; and it says SUCCEEDED only if the wait did not time out and the service has a result that says so, of which it then is the outcome.
pub run-Closed :
    (h : Hashing) (service : Service) (request : Request) (o : ChildOutcome)
    → run h service request ≡ some o
    → Closed h service request o
unfolding run
run-Closed h service request o e =
    after_wait-Closed h service request (service.timed_out request) o refl e
