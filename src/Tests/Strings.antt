-- ===== src/Tests/Strings.antt =====
-- `split` and `trim_space` at texts.
use pspxy.Base.{◌≡◌, refl, [], ◌∷◌, codes, is_space}
use pspxy.Strings.{split, trim_space}

split_example : split b',' (codes "a,,b") ≡ codes "a" ∷ [] ∷ codes "b" ∷ []
unfolding split
split_example = refl

trim_space_example : trim_space (codes "  a b ") ≡ codes "a b"
unfolding trim_space is_space
trim_space_example = refl
