-- ===== src/Metadata/Tags/Fields.antt =====
-- What `ExtractImageMetadata` collects, field by field.
use go_imagefy.Prelude.{
  ℕ, Bool, true, false, ◌||◌, some, none, List, [], ◌∷◌, any, is_empty, if◌then◌else◌, ◌≡◌, refl,
  arith, ap, ◌∙◌, sym, ◌&&◌, subst, not, Bool-cases, inl, inr,
}
use go_imagefy.Text.{Text, codes, text_eq}
use go_imagefy.Text.Search.{text_eq_iff}
use go_imagefy.Metadata.{ImageMetadata}
use go_imagefy.Metadata.Tags.{
  TagSource, exif, iptc, xmp, TagValue, bool_value, TagInfo, tag_value_string, Collected,
  handle_iptc_tag, handle_exif_tag, handle_xmp_tag, handle_tag, wanted_tags, should_handle_tag,
  collect_tags, empty_metadata, Decoded, extract_image_metadata,
}

abbrev pub same_source : TagSource → TagSource → Bool
same_source exif exif = true
same_source iptc iptc = true
same_source xmp xmp = true
same_source _ _ = false

-- The tag has this source and this name.
abbrev pub is_tag : TagSource → Text → TagInfo → Bool
is_tag src name ti = same_source ti.source src && text_eq ti.tag name

-- The text that a tag leaves in a field: its own, if it is meant and is not empty.
abbrev pub text_after : TagSource → Text → Text → TagInfo → Text
text_after src name old ti =
    if is_tag src name ti
    then (if is_empty (tag_value_string ti.value) then old else tag_value_string ti.value)
    else old

-- The last usable text of a tag.
pub last_text : TagSource → Text → Text → List TagInfo → Text
last_text src name old [] = old
last_text src name old (ti ∷ tis) = last_text src name (text_after src name old ti) tis

abbrev pub bool_or : Bool → TagValue → Bool
bool_or old (bool_value b) = b
bool_or old _ = old

pub last_mark : Bool → List TagInfo → Bool
last_mark old [] = old
last_mark old (ti ∷ tis) =
    last_mark (if is_tag xmp (codes "Marked") ti then bool_or old ti.value else old) tis

-- The metadata that the tags spell: every field by itself, with no handler and no filter.
pub spelled : ImageMetadata → List TagInfo → ImageMetadata
spelled m tis = record {
  exif_copyright = last_text exif (codes "Copyright") m.exif_copyright tis;
  exif_artist = last_text exif (codes "Artist") m.exif_artist tis;
  iptc_copyright = last_text iptc (codes "CopyrightNotice") m.iptc_copyright tis;
  iptc_credit = last_text iptc (codes "Credit") m.iptc_credit tis;
  iptc_source = last_text iptc (codes "Source") m.iptc_source tis;
  iptc_byline = last_text iptc (codes "Byline") m.iptc_byline tis;
  xmp_license = last_text xmp (codes "License") m.xmp_license tis;
  xmp_web_statement = last_text xmp (codes "WebStatement") m.xmp_web_statement tis;
  xmp_usage_terms = last_text xmp (codes "UsageTerms") m.xmp_usage_terms tis;
  xmp_marked = last_mark m.xmp_marked tis;
  dc_rights = last_text xmp (codes "Rights") m.dc_rights tis;
  dc_creator = last_text xmp (codes "Creator") m.dc_creator tis;
}

-- One tag, handled only if it is wanted.
abbrev handled : Collected → TagInfo → Collected
handled c ti = if should_handle_tag ti then handle_tag c ti else c

abbrev made : TagSource → Text → TagValue → TagInfo
made src t v = record { source = src; tag = t; value = v }

-- A name is one of the list, or fails every comparison with it.
split_name :
    {R : Type 0} (t : Text) (name : Text) → (t ≡ name → R) → (text_eq t name ≡ false → R) → R
split_name t name hit miss = elim (Bool-cases (text_eq t name)) [
  | inl e ↦ hit ((text_eq_iff t name).0 e)
  | inr e ↦ miss e
]

tag_step : Unit {0}
unfolding should_handle_tag wanted_tags any handle_tag handle_exif_tag handle_iptc_tag
    handle_xmp_tag spelled last_text last_mark
tag_step = tt

abbrev is_bool : TagValue → Bool
is_bool (bool_value b) = true
is_bool _ = false

-- A wanted tag with a value that its field can hold.
abbrev pub usable : TagInfo → Bool
usable ti =
    should_handle_tag ti
    && (if is_tag xmp (codes "Marked") ti
        then is_bool ti.value
        else not (is_empty (tag_value_string ti.value)))

-- One handled tag does what the specification says to both variables of the handlers.
abbrev StepSpelled : Collected → TagSource → Text → TagValue → Type 0
StepSpelled c src t v =
    ((handled c (made src t v)).meta ≡ spelled c.meta (made src t v ∷ []))
    × ((handled c (made src t v)).found ≡ (c.found || usable (made src t v)))

exif_known :
    (c : Collected) (v : TagValue)
    → StepSpelled c exif (codes "Copyright") v × StepSpelled c exif (codes "Artist") v
unfolding tag_step text_eq
exif_known c v = ((ground arith, ground arith), (ground arith, ground arith))

iptc_known :
    (c : Collected) (v : TagValue)
    → StepSpelled c iptc (codes "CopyrightNotice") v
      × StepSpelled c iptc (codes "Credit") v
      × StepSpelled c iptc (codes "Byline") v
      × StepSpelled c iptc (codes "Source") v
unfolding tag_step text_eq
iptc_known c v = (
  (ground arith, ground arith),
  (ground arith, ground arith),
  (ground arith, ground arith),
  (ground arith, ground arith),
)

xmp_statement : (c : Collected) (v : TagValue) → StepSpelled c xmp (codes "WebStatement") v
unfolding tag_step text_eq
xmp_statement c v = (ground arith, ground arith)

xmp_terms : (c : Collected) (v : TagValue) → StepSpelled c xmp (codes "UsageTerms") v
unfolding tag_step text_eq
xmp_terms c v = (ground arith, ground arith)

xmp_license : (c : Collected) (v : TagValue) → StepSpelled c xmp (codes "License") v
unfolding tag_step text_eq
xmp_license c v = (ground arith, ground arith)

xmp_marked : (c : Collected) (v : TagValue) → StepSpelled c xmp (codes "Marked") v
unfolding tag_step text_eq
xmp_marked c v = (ground arith, ground arith)

xmp_rights : (c : Collected) (v : TagValue) → StepSpelled c xmp (codes "Rights") v
unfolding tag_step text_eq
xmp_rights c v = (ground arith, ground arith)

xmp_creator : (c : Collected) (v : TagValue) → StepSpelled c xmp (codes "Creator") v
unfolding tag_step text_eq
xmp_creator c v = (ground arith, ground arith)

xmp_known :
    (c : Collected) (v : TagValue)
    → StepSpelled c xmp (codes "WebStatement") v
      × StepSpelled c xmp (codes "UsageTerms") v
      × StepSpelled c xmp (codes "License") v
      × StepSpelled c xmp (codes "Marked") v
      × StepSpelled c xmp (codes "Rights") v
      × StepSpelled c xmp (codes "Creator") v
xmp_known c v = (
  xmp_statement c v,
  xmp_terms c v,
  xmp_license c v,
  xmp_marked c v,
  xmp_rights c v,
  xmp_creator c v,
)

exif_step : (c : Collected) (t : Text) (v : TagValue) → StepSpelled c exif t v
unfolding tag_step
exif_step c t v =
    split_name t (codes "Copyright")
      (λ e. subst (λ n. StepSpelled c exif n v) (sym e) (exif_known c v).0)
      λ n1.
        split_name t (codes "Artist")
          (λ e. subst (λ n. StepSpelled c exif n v) (sym e) (exif_known c v).1)
          λ n2. (rw (n1, n2), rw (n1, n2) (ground arith))

iptc_step : (c : Collected) (t : Text) (v : TagValue) → StepSpelled c iptc t v
unfolding tag_step
iptc_step c t v =
    let at = λ (n : Text) (e : t ≡ n) (p : StepSpelled c iptc n v).
      subst (λ n. StepSpelled c iptc n v) (sym e) p in
    let (copyright, credit, byline, source) = iptc_known c v in
    split_name t (codes "CopyrightNotice") (λ e. at _ e copyright)
      λ n1.
        split_name t (codes "Credit") (λ e. at _ e credit)
          λ n2.
            split_name t (codes "Byline") (λ e. at _ e byline)
              λ n3.
                split_name t (codes "Source") (λ e. at _ e source)
                  λ n4. (rw (n1, n2, n3, n4), rw (n1, n2, n3, n4) (ground arith))

xmp_step : (c : Collected) (t : Text) (v : TagValue) → StepSpelled c xmp t v
unfolding tag_step
xmp_step c t v =
    let at = λ (n : Text) (e : t ≡ n) (p : StepSpelled c xmp n v).
      subst (λ n. StepSpelled c xmp n v) (sym e) p in
    let (statement, terms, license, marked, rights, creator) = xmp_known c v in
    split_name t (codes "WebStatement") (λ e. at _ e statement)
      λ n1.
        split_name t (codes "UsageTerms") (λ e. at _ e terms)
          λ n2.
            split_name t (codes "License") (λ e. at _ e license)
              λ n3.
                split_name t (codes "Marked") (λ e. at _ e marked)
                  λ n4.
                    split_name t (codes "Rights") (λ e. at _ e rights)
                      λ n5.
                        split_name t (codes "Creator") (λ e. at _ e creator)
                          λ n6. (
                            rw (n1, n2, n3, n4, n5, n6),
                            rw (n1, n2, n3, n4, n5, n6) (ground arith),
                          )

step_spelled : (c : Collected) (src : TagSource) (t : Text) (v : TagValue) → StepSpelled c src t v
step_spelled c exif t v = exif_step c t v
step_spelled c iptc t v = iptc_step c t v
step_spelled c xmp t v = xmp_step c t v

spelled-cons :
    (m : ImageMetadata) (ti : TagInfo) (tis : List TagInfo)
    → spelled (spelled m (ti ∷ [])) tis ≡ spelled m (ti ∷ tis)
unfolding spelled last_text last_mark
spelled-cons m ti tis = refl

-- The handlers compute the specification.
collect_tags-spelled :
    (c : Collected) (tis : List TagInfo) → (collect_tags c tis).meta ≡ spelled c.meta tis
unfolding collect_tags
collect_tags-spelled c [] = unfold spelled last_text last_mark in refl
collect_tags-spelled c (ti ∷ tis) =
    collect_tags-spelled (handled c ti) tis
    ∙ ap (λ m. spelled m tis) (step_spelled c ti.source ti.tag ti.value).0
    ∙ spelled-cons c.meta ti tis

collect_tags-found :
    (c : Collected) (tis : List TagInfo) → (collect_tags c tis).found ≡ (c.found || any usable tis)
unfolding collect_tags any
collect_tags-found c [] = ground arith
collect_tags-found c (ti ∷ tis) =
    ground
      (arith, collect_tags-found (handled c ti) tis, (step_spelled c ti.source ti.tag ti.value).1)

-- The metadata of an image is nil when it has no bytes, when the decoder fails, or when no tag has
-- a usable value; else every field holds the last usable value of its own tag.
pub extract_image_metadata_lem :
    (decode : List ℕ → Decoded) (bytes : List ℕ)
    → extract_image_metadata decode bytes ≡ (
        if is_empty bytes || (decode bytes).failed || not (any usable (decode bytes).tags)
        then none
        else some (spelled empty_metadata (decode bytes).tags))
unfolding extract_image_metadata
extract_image_metadata_lem decode [] = refl
extract_image_metadata_lem decode (b ∷ bs) =
    let start : Collected = record { meta = empty_metadata; found = false } in
    let tags = (decode (b ∷ bs)).tags in
    ground (arith, collect_tags-spelled start tags, collect_tags-found start tags)
