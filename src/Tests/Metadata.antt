-- ===== src/Tests/Metadata.antt =====
-- Metadata at concrete inputs.
use go_imagefy.Prelude.{
  ℕ, true, false, not, ◌||◌, some, none, List, [], ◌∷◌, any, is_empty, if◌then◌else◌, ◌≡◌, ◌↔◌, Any,
  arith,
}
use go_imagefy.Text.{codes}
use go_imagefy.Metadata.{ImageMetadata, stock_fields, is_stock_by_metadata}
use go_imagefy.Metadata.Words.{contains_word}
use go_imagefy.Metadata.Boundaries.{WordIn}
use go_imagefy.Metadata.Rounds.{contains_word_iff}
use go_imagefy.Metadata.Keywords.{NamesAgency, is_stock_by_metadata_iff}
use go_imagefy.Metadata.Tags.{Decoded, iptc, string_value, empty_metadata, extract_image_metadata}
use go_imagefy.Metadata.Tags.Fields.{spelled, usable, extract_image_metadata_lem}
use go_imagefy.Tests.World.{ascii}

abbrev credited : ImageMetadata
credited = record empty_metadata {
  iptc_credit = codes "Alamy Ltd";
  xmp_license = codes "https://creativecommons.org/licenses/by/4.0/";
}

abbrev one_tag : List ℕ → Decoded
one_tag bytes = record {
  tags = record { source = iptc; tag = codes "Credit"; value = string_value (codes "Alamy") } ∷ [];
  failed = false;
}

contains_word_iff_example :
    (contains_word (codes "balamy alamy") (codes "alamy") ≡ true)
    ↔ WordIn (codes "alamy") (codes "balamy alamy")
contains_word_iff_example = contains_word_iff (codes "balamy alamy") (codes "alamy") (omega arith)

is_stock_by_metadata_iff_example :
    (is_stock_by_metadata (some credited) ≡ true) ↔ Any NamesAgency (stock_fields credited)
is_stock_by_metadata_iff_example = is_stock_by_metadata_iff credited

extract_image_metadata_lem_example : extract_image_metadata one_tag (1 ∷ []) ≡ (
    if is_empty {A = ℕ} (1 ∷ [])
      || (one_tag (1 ∷ [])).failed
      || not (any usable (one_tag (1 ∷ [])).tags)
    then none
    else some (spelled empty_metadata (one_tag (1 ∷ [])).tags))
extract_image_metadata_lem_example = extract_image_metadata_lem one_tag (1 ∷ [])
