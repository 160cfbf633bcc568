-- ===== src/Uuid.antt =====
-- github.com/google/uuid, which is not part of the repository: a UUID is its 16 bytes, `parse` is
-- `uuid.Parse`, `format` is `String()`. A new random UUID is an argument of what calls `uuid.New()`.
use pspxy.Base.{◌≡◌, false, Option, some, Text, length}
use pspxy.Strings.{trim_space, is_empty}

pub record Uuid : Type 0 where
  pub parse : Text → Option Text
  pub format : Text → Text

-- What is formatted parses to the same UUID, what parses has 16 bytes, and the text of a UUID (36
-- characters, hexadecimal digits and dashes) is not empty and has no space at its ends.
pub record UuidLaws (u : Uuid) : Type 0 where
  pub parse_format : (id : Text) → length id ≡ 16 → u.parse (u.format id) ≡ some id
  pub parse_size : (s id : Text) → u.parse s ≡ some id → length id ≡ 16
  pub format_trimmed : (id : Text) → trim_space (u.format id) ≡ u.format id
  pub format_filled : (id : Text) → is_empty (u.format id) ≡ false
