-- ===== src/Bus/Ends.antt =====
-- Programs that return from every trace, whatever the device has answered.
use miniboot.Common.{ℕ, ◌≡◌, refl, Bool, true, false, if◌then◌else◌}
use miniboot.Bus.{Trace, Width, Device, Prog, done, pure, ◌>>=◌, read}
use miniboot.Bus.{writeb, writew, writel}

pub record Ends {A : Type 0} (m : Prog A) : Type 0 where
  pub runs : (h : Trace) → (a : A) × (h' : Trace) × (m h ≡ done a h')

pub Ends-pure : {A : Type 0} (a : A) → Ends (pure a)
Ends-pure a = record { runs = λ h. (a, h, refl) }

pub Ends-bind :
    {A B : Type 0} {m : Prog A} {f : A → Prog B} → Ends m → ((a : A) → Ends (f a)) → Ends (m >>= f)
Ends-bind first rest = record {
  runs = λ h.
      let (a, h1, e1) = first.runs h in let (b, h2, e2) = (rest a).runs h1 in (b, h2, rw e1 e2);
}

pub Ends-if : {A : Type 0} (b : Bool) {m n : Prog A} → Ends m → Ends n → Ends (if b then m else n)
Ends-if true p q = p
Ends-if false p q = q

pub Ends-read : (dev : Device) (w : Width) (a : ℕ) → Ends (read dev w a)
Ends-read dev w a = record { runs = λ h. (_, _, refl) }

pub Ends-writeb : (v a : ℕ) → Ends (writeb v a)
Ends-writeb v a = record { runs = λ h. (tt, _, refl) }

pub Ends-writew : (v a : ℕ) → Ends (writew v a)
Ends-writew v a = record { runs = λ h. (tt, _, refl) }

pub Ends-writel : (v a : ℕ) → Ends (writel v a)
Ends-writel v a = record { runs = λ h. (tt, _, refl) }

pub ruleset ends = (Ends-pure, Ends-bind, Ends-if, Ends-read, Ends-writeb, Ends-writew, Ends-writel)
