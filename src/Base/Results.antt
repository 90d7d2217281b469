-- ===== src/Base/Results.antt =====
-- What holds of a result that may be missing.
use mathlib.Core.Bool.{Bool, true, false}
use tp_2019_2c_vendo_fiat.Base.Tests.{if◌then◌else◌}
use mathlib.Core.Path.{◌≡◌, refl}
use mathlib.Core.Option.{Option, none, some}
use tp_2019_2c_vendo_fiat.Base.Tests.{option_case}

-- What holds of a result, if there is one.
abbrev pub SiHay {ℓ} : {A : Type ℓ} → (A → Type 0) → Option A → Type 0
SiHay P none = Unit
SiHay P (some a) = P a

pub SiHay-option_case {ℓ κ} :
    {A : Type ℓ} {B : Type κ} (P : B → Type 0) (Q : A → Type 0) (o : Option A) (f : A → Option B)
    → SiHay Q o
    → ((a : A) → o ≡ some a → Q a → SiHay P (f a))
    → SiHay P (option_case o none f)
SiHay-option_case P Q none f h k = tt
SiHay-option_case P Q (some a) f h k = k a refl h

pub SiHay-mono {ℓ} :
    {A : Type ℓ} (P Q : A → Type 0) (o : Option A) → SiHay P o → ((a : A) → P a → Q a) → SiHay Q o
SiHay-mono P Q none h k = tt
SiHay-mono P Q (some a) h k = k a h

-- Two ways to go on that agree where there is a result.
pub option_case_cong {ℓ κ} :
    {A : Type ℓ} {B : Type κ} (Q : A → Type 0) (o : Option A) (b : B) (f g : A → B)
    → SiHay Q o
    → ((a : A) → o ≡ some a → Q a → f a ≡ g a)
    → option_case o b f ≡ option_case o b g
option_case_cong Q none b f g h k = refl
option_case_cong Q (some a) b f g h k = k a refl h

pub if_cong {ℓ} :
    {A : Type ℓ} (b : Bool) (x y z : A)
    → (b ≡ false → y ≡ z)
    → (if b then x else y) ≡ (if b then x else z)
if_cong true x y z h = refl
if_cong false x y z h = h refl

pub option_case_ext {ℓ κ} :
    {A : Type ℓ} {B : Type κ} (o : Option A) (b : B) (f g : A → B)
    → ((a : A) → f a ≡ g a)
    → option_case o b f ≡ option_case o b g
option_case_ext none b f g k = refl
option_case_ext (some a) b f g k = k a

pub option_case-none {ℓ κ} :
    {A : Type ℓ} {B : Type κ} (o : Option A)
    → (let falla : A → Option B = λ a. none in option_case o none falla ≡ none)
option_case-none none = refl
option_case-none (some a) = refl
