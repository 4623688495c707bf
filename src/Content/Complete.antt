-- ===== src/Content/Complete.antt =====
-- No tag and no script of a page is missed for want of fuel.
use go_imagefy.Prelude.{ℕ, ◌≤◌, length, ◌≡◌, inl}
use go_imagefy.Text.{Text}
use go_imagefy.Regexp.{start_of, find_all_from, find_all}
use go_imagefy.Regexp.Enough.{find_all_enough}
use go_imagefy.ImageTag.{content_img_tag_re, json_ld_script_re}

-- With fuel for each rune of the page or more, the same <img> tags and the same scripts are found.
pub find_all_tags_enough :
    (page : Text) (fuel : ℕ)
    → length page ≤ fuel
    → (find_all_from content_img_tag_re fuel (start_of page) ≡ find_all content_img_tag_re page)
      × (find_all_from json_ld_script_re fuel (start_of page) ≡ find_all json_ld_script_re page)
unfolding content_img_tag_re json_ld_script_re
find_all_tags_enough page fuel h = (
  find_all_enough content_img_tag_re page fuel (inl (inl tt)) h,
  find_all_enough json_ld_script_re page fuel (inl (inl tt)) h,
)
