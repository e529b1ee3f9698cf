-- ===== src/Text/Cuts.antt =====
-- Cutting a text in two and putting it together.
use flywheel.Prelude.{ℕ, ◌≡◌, refl, false, [], ◌∷◌, ◌++◌, some, arith}
use flywheel.Bytes.{Bytes}
use flywheel.Text.{split_once, contains, strip_prefix}

pub strip_prefix-append : (p text : Bytes) → strip_prefix p (p ++ text) ≡ some text
unfolding strip_prefix
strip_prefix-append [] text = refl
strip_prefix-append (c ∷ cs) text = ground (arith, strip_prefix-append cs text)

-- The first separator is where the text before it has none.
pub split_once-append :
    (sep : ℕ) (a b : Bytes) → contains sep a ≡ false → split_once sep (a ++ sep ∷ b) ≡ some (a, b)
unfolding split_once contains
split_once-append sep [] b h = ground arith
split_once-append sep (c ∷ cs) b h = ground (arith, split_once-append sep cs b)

pub contains-append :
    (sep : ℕ) (a b : Bytes)
    → contains sep a ≡ false
    → contains sep b ≡ false
    → contains sep (a ++ b) ≡ false
unfolding contains
contains-append sep [] b h k = k
contains-append sep (c ∷ cs) b h k = ground (arith, contains-append sep cs b)
