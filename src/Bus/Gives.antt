-- ===== src/Bus/Gives.antt =====
-- Programs that return from every trace, with a value of which something is known.
use miniboot.Common.{◌≡◌, refl, Bool, true, false, if◌then◌else◌}
use miniboot.Bus.{Trace, Prog, done, pure, ◌>>=◌}
use miniboot.Bus.Ends.{Ends}

pub record Gives {A : Type 0} (P : A → Type 0) (m : Prog A) : Type 0 where
  pub runs : (h : Trace) → (a : A) × (h' : Trace) × (m h ≡ done a h') × P a

pub Gives-pure : {A : Type 0} (P : A → Type 0) (a : A) → P a → Gives P (pure a)
Gives-pure P a p = record { runs = λ h. (a, h, refl, p) }

pub Gives-bind :
    {A B : Type 0} (Q : A → Type 0) (P : B → Type 0) {m : Prog A} {f : A → Prog B}
    → Gives Q m
    → ((a : A) → Q a → Gives P (f a))
    → Gives P (m >>= f)
Gives-bind Q P first rest = record {
  runs = λ h.
      let (a, h1, e1, q) = first.runs h in
      let (b, h2, e2, p) = (rest a q).runs h1 in (b, h2, rw e1 e2, p);
}

pub Gives-after :
    {A B : Type 0} (P : B → Type 0) {m : Prog A} {f : A → Prog B}
    → Ends m
    → ((a : A) → Gives P (f a))
    → Gives P (m >>= f)
Gives-after P first rest = record {
  runs = λ h.
      let (a, h1, e1) = first.runs h in
      let (b, h2, e2, p) = (rest a).runs h1 in (b, h2, rw e1 e2, p);
}

pub Gives-if :
    {A : Type 0} (P : A → Type 0) (b : Bool) {m n : Prog A}
    → (b ≡ true → Gives P m)
    → (b ≡ false → Gives P n)
    → Gives P (if b then m else n)
Gives-if P true p q = p refl
Gives-if P false p q = q refl
