-- ===== src/Launchers/Imgui/Ensures.antt =====
-- What a step satisfies where it is defined, and the rule for a chain of two.
use mcx.Prelude.{◌≡◌, Option, none, some, subst}
use mcx.Prelude.Do.{◌>>=◌}

abbrev pub Ensures : {A : Type 0} → (A → Type 0) → Option A → Type 0
Ensures P none = Unit
Ensures P (some s) = P s

pub Ensures->>= :
    {A B : Type 0} (P : A → Type 0) (Q : B → Type 0) (m : Option A) (f : A → Option B)
    → Ensures P m
    → ((s : A) → P s → Ensures Q (f s))
    → Ensures Q (m >>= f)
Ensures->>= P Q none f h k = tt
Ensures->>= P Q (some s) f h k = k s h

pub Ensures_some :
    {A : Type 0} (P : A → Type 0) (m : Option A) {s : A} → m ≡ some s → Ensures P m → P s
Ensures_some P m e h = subst (Ensures P) e h
