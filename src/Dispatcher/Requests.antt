-- ===== src/Dispatcher/Requests.antt =====
-- The parser of requests (Dispatcher/request.go). The body is given as the fields that encoding/json reads
-- from it; texts are ASCII.
use kube_comp_mig.Prelude.{
  ℕ, String, Bool, ◌&&◌, ◌||◌, Option, none, some, [], leb, ◌==◌, str_eq, if◌then◌else◌,
}
use Prim.Native.Char.{Char, code}
use kube_comp_mig.Prelude.Maps.{string_eq, lookup}
use kube_comp_mig.Prelude.Text.{is_digit, split_on}
use kube_comp_mig.Nvml.{last_of}
use kube_comp_mig.Dispatcher.{Request}

-- `strings.ToLower` of a character
unfoldable pub lower_in : String → String → Char → Char
lower_in String.[] lower c = c
lower_in (String.◌∷◌ u us) String.[] c = c
lower_in (String.◌∷◌ u us) (String.◌∷◌ l ls) c =
    let rest = lower_in us ls c in if code c == code u then l else rest

unfoldable pub to_lower : String → String
unfolding lower_in
to_lower String.[] = ""
to_lower (String.◌∷◌ c s) =
    String.◌∷◌ (lower_in "ABCDEFGHIJKLMNOPQRSTUVWXYZ" "abcdefghijklmnopqrstuvwxyz" c) (to_lower s)

-- `[a-z0-9]`
abbrev pub is_valid : ℕ → Bool
is_valid c = (leb 97 c && leb c 122) || is_digit c

-- `invalidPattern.ReplaceAllString(model, "")`
unfoldable pub keep_valid : String → String
keep_valid String.[] = ""
keep_valid (String.◌∷◌ c s) =
    let rest = keep_valid s in if is_valid (code c) then String.◌∷◌ c rest else rest

-- What follows the last "/" of the text, or the whole text.
abbrev pub after_slash : String → String
after_slash model_id = last_of (split_on 47 model_id)

abbrev pub empty_request : Request
empty_request = record { model = ""; env = []; label = [] }

unfoldable pub with_model_id : Request → Option String → Request
unfolding to_lower keep_valid
with_model_id req none = empty_request
with_model_id req (some model_id) =
    let model = keep_valid (to_lower (after_slash model_id)) in
    if str_eq model ""
    then empty_request
    else record { model = model; env = req.env; label = req.label }

-- `parseRequest`; `none` is a body that cannot be read or is not valid.
unfoldable pub parse_request : Option Request → Request
unfolding with_model_id
parse_request none = empty_request
parse_request (some req) = with_model_id req (lookup "MODEL_ID" req.env)

-- `handleRequest`: the request that is sent to the channel, and the status.
unfoldable pub handle_request : Option Request → Option Request × ℕ
unfolding parse_request
handle_request body =
    let request = parse_request body in
    if str_eq request.model "" then (none, 400) else (some request, 202)
