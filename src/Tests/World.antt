-- ===== src/Tests/World.antt =====
-- A small world for the examples: addresses of two sites, a server that always answers with the same
-- image, numbers for hashes and floats.
use go_imagefy.Prelude.{
  ℕ, suc, ◌+◌, ◌-◌, ◌==◌, pos, true, false, leb, ltb, some, none, [], ◌∷◌, if◌then◌else◌,
}
use go_imagefy.Text.{Text, codes, has_prefix}
use go_imagefy.Platform.{Platform}
use go_imagefy.License.{license_safe, license_unknown}
use go_imagefy.Candidate.{ImageCandidate}
use go_imagefy.Classes.{Floats}
use go_imagefy.Dedup.{Hashing}
use go_imagefy.Http.{Client, Response}
use go_imagefy.Config.{Config, SearchProvider, SearchOpts, found, failed, transport_failed}
use go_imagefy.Config.Environment.{Environment}

-- The host of an address without its scheme, up to its first slash, and what follows it.
abbrev split_host : Text → Text × Text
split_host [] = ([], [])
split_host (c ∷ s) =
    let rest = split_host s in if c == 47 then ([], c ∷ s) else (c ∷ rest.0, rest.1)

instance abbrev pub ascii : Platform
ascii = record {
  lower_table = λ c. if ltb c 128 then b'a' else c;
  upper_table = λ c. c;
  parse_url = λ s.
      some
        (record { host = (split_host s).0; hostname = (split_host s).0; path = (split_host s).1 });
  unescape_html = λ s. s;
  text_of_bytes = λ bytes. bytes;
}

abbrev pub decimal_floats : Floats ℕ
decimal_floats = record {
  zero_float = 0;
  one_float = 100;
  le_zero = λ x. leb x 0;
  gt_one = λ x. ltb 100 x;
  parse_float = λ s. if has_prefix s (codes "0.9") then some 90 else none;
}

abbrev pub hashing : Hashing ℕ ℕ
hashing = record {
  difference_hash = λ img. some img;
  distance = λ a b. some (pos (a - b + (b - a)));
}

abbrev pub photo_reply : Response
photo_reply = record {
  status = 200;
  content_type = codes "image/png";
  arriving = 1 ∷ 2 ∷ 3 ∷ [];
  broken = false;
}

-- Counts the requests in the world.
abbrev pub server : Client ℕ
server = record {
  transport = λ stops timeout req n. (some photo_reply, suc n);
  stops_redirect = λ n. false;
  timeout = pos 0;
}

abbrev pub env_of : {W : Type 0} → Client W → Environment W ℕ ℕ ℕ
env_of client = record {
  default_client = client;
  decode_width = λ bytes. some (pos 1000);
  decode_image = λ bytes. some 7;
  hashing = hashing;
  floats = decimal_floats;
  decode_tags = λ bytes. record { tags = []; failed = false };
  marshal_reverse = λ url n. some url;
  unmarshal_reverse = λ body. some (record { is_stock = true; stock_domains = [] });
}

abbrev pub env : Environment ℕ ℕ ℕ ℕ
env = env_of server

abbrev pub bare : {W : Type 0} → Config W ℕ
bare = record {
  cache = none;
  classifier = none;
  stealth_client = none;
  http_client = none;
  searxng_url = [];
  min_image_width = pos 0;
  user_agent = [];
  providers = [];
  vision_prompt = [];
  extra_blocked_domains = [];
  extra_safe_domains = [];
  ox_browser_url = [];
  on_image_search = none;
  on_classification = none;
}

abbrev pub plain : Config ℕ ℕ
plain = bare

abbrev pub photo : ImageCandidate
photo = record {
  img_url = codes "pixabay.com/a.jpg";
  thumbnail = [];
  source = [];
  title = codes "a";
  license = license_safe;
  width = pos 0;
  height = pos 0;
  engine = [];
}

abbrev pub other_photo : ImageCandidate
other_photo = record photo { img_url = codes "example.org/b.jpg"; license = license_unknown }

-- Answers each search with the two candidates.
abbrev pub two_photos : SearchProvider ℕ
two_photos = record {
  name = codes "two";
  search = λ ctx query opts n. (found (other_photo ∷ photo ∷ []), suc n);
}

abbrev pub broken_provider : SearchProvider ℕ
broken_provider = record {
  name = codes "broken";
  search = λ ctx query opts n. (failed transport_failed, suc n);
}

abbrev pub plain_opts : SearchOpts
plain_opts = record { page_number = pos 1; engines = []; timeout = pos 0; page_url = [] }
