-- ===== src/Tests/Classification.antt =====
-- Answers of the vision model, and the cache of their results, at concrete inputs.
use go_imagefy.Prelude.{
  ℕ, false, Option, some, none, List, [], ◌∷◌, if◌then◌else◌, ◌≡◌, ◌↔◌, ◌⊎◌, inl, inr, refl, pos,
}
use go_imagefy.Text.{Text, codes, text_eq}
use go_imagefy.Text.Search.{StartsWith, text_eq_iff}
use go_imagefy.Http.{Client}
use go_imagefy.Config.{Config, Cache}
use go_imagefy.Classes.{ClassificationResult, class_photo, parse_classification_result}
use go_imagefy.Classes.Answers.{normal_answer, parse_classification_result_iff}
use go_imagefy.Classes.Confidence.{remainder_of, IsAccepted, parse_classification_result-confidence}
use go_imagefy.Classify.{classify_image_full, classify_predownloaded}
use go_imagefy.Classify.Caching.{Remembers, classify_image_full_after_pipeline}
use go_imagefy.Tests.World.{ascii, decimal_floats, photo_reply, env_of, bare}

abbrev answer : Text
answer = codes "photo 0.95"

parse_classification_result_iff_example :
    ((parse_classification_result decimal_floats answer).class ≡ class_photo)
    ↔ StartsWith class_photo (normal_answer answer)
parse_classification_result_iff_example =
    parse_classification_result_iff decimal_floats answer class_photo
      (inr (inr (inr (inr (inl refl)))))

parse_classification_result-confidence_example :
    ((parse_classification_result decimal_floats answer).confidence ≡ 0)
    ⊎ ((conf : ℕ) × ((parse_classification_result decimal_floats answer).confidence ≡ conf)
        × IsAccepted decimal_floats (remainder_of decimal_floats answer) conf)
parse_classification_result-confidence_example =
    parse_classification_result-confidence decimal_floats answer

-- Results by their keys, the latest first.
abbrev Memory : Type 0
Memory = List (Text × ClassificationResult ℕ)

abbrev recall : Text → Memory → Option (ClassificationResult ℕ)
recall key [] = none
recall key (e ∷ es) = let rest = recall key es in if text_eq e.0 key then some e.1 else rest

abbrev memory : Cache Memory ℕ
memory = record {
  key = λ prefix url. url;
  get = λ ctx key m. (recall key m, m);
  set = λ ctx key r m. (tt, (key, r) ∷ m);
}

memory-Remembers : Remembers memory
memory-Remembers = record {
  get-set = λ ctx key r m. rw ((text_eq_iff key key).1 refl) refl;
  get-get = λ ctx key r m h. h;
}

abbrev photo_server : Client Memory
photo_server = record {
  transport = λ stops timeout req m. (some photo_reply, m);
  stops_redirect = λ n. false;
  timeout = pos 0;
}

abbrev caching : Config Memory ℕ
caching = record bare {
  cache = some memory;
  classifier = some (record { classify = λ ctx prompt images m. (some answer, m) });
}

classify_image_full_after_pipeline_example :
    (classify_image_full
      (env_of photo_server)
      caching
      []
      (codes "a.org/b")
      (classify_predownloaded
        (env_of photo_server)
        caching
        []
        (codes "a.org/b")
        (1 ∷ [])
        []
        []).1).0
    ≡ (classify_predownloaded (env_of photo_server) caching [] (codes "a.org/b") (1 ∷ []) [] []).0
classify_image_full_after_pipeline_example =
    classify_image_full_after_pipeline (env_of photo_server) caching [] (codes "a.org/b") memory []
      refl memory-Remembers (1 ∷ []) []
