-- ===== src/Os/Keeps.antt =====
-- Invariants of the library's operations: one rule for each way to build one.
use linux_ant_hal.Base.{Bool, true, false, ◌∷◌, if◌then◌else◌}
use linux_ant_hal.Os.{Os, Call, Trace, M, ◌>>=◌, ◌>>◌, pure, get, modify, after, call, tell}

-- The operation keeps a property of the state and the trace.
pub record Keeps {S A : Type 0} (P : S → Trace → Type 0) (op : M S A) : Type 0 where
  pub at : (s : S) (t : Trace) → P s t → P (op s t).1 (op s t).2

module _ {S : Type 0} {P : S → Trace → Type 0} where
  pub Keeps-pure : {A : Type 0} (a : A) → Keeps P (pure a)
  Keeps-pure a = record { at = λ s t p. p }

  pub Keeps-get : Keeps P get
  Keeps-get = record { at = λ s t p. p }

  pub Keeps-after : {A : Type 0} (f : Trace → A) → Keeps P (after f)
  Keeps-after f = record { at = λ s t p. p }

  pub Keeps-bind :
      {A B : Type 0} (m : M S A) (f : A → M S B)
      → Keeps P m
      → ((a : A) → Keeps P (f a))
      → Keeps P (m >>= f)
  Keeps-bind m f km kf = record {
    at = λ s t p. let (a, s', t') = m s t in (kf a).at s' t' (km.at s t p);
  }

  pub Keeps-then : {A B : Type 0} (m : M S A) (n : M S B) → Keeps P m → Keeps P n → Keeps P (m >> n)
  Keeps-then m n km kn = Keeps-bind m (λ _. n) km (λ _. kn)

  pub Keeps-if :
      {A : Type 0} (b : Bool) (m n : M S A) → Keeps P m → Keeps P n → Keeps P (if b then m else n)
  Keeps-if true m n km kn = km
  Keeps-if false m n km kn = kn

  pub Keeps-call :
      (os : Os) (c : Call) → ((s : S) (t : Trace) → P s t → P s (c ∷ t)) → Keeps P (call os c)
  Keeps-call os c k = record { at = λ s t p. k s t p }

  pub Keeps-tell : (c : Call) → ((s : S) (t : Trace) → P s t → P s (c ∷ t)) → Keeps P (tell c)
  Keeps-tell c k = record { at = λ s t p. k s t p }

  pub Keeps-modify : (f : S → S) → ((s : S) (t : Trace) → P s t → P (f s) t) → Keeps P (modify f)
  Keeps-modify f k = record { at = λ s t p. k s t p }

pub ruleset keeps_rules = (Keeps-pure, Keeps-get, Keeps-after, Keeps-bind, Keeps-then, Keeps-if)
