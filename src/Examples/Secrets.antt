-- ===== src/Examples/Secrets.antt =====
-- The laws of the credential service at two stores in memory.
use ai4se_coding_agent_harne.Prelude.{◌≡◌, refl, true, false, Option, none, some, [], ◌∷◌, ok}
use ai4se_coding_agent_harne.Text.{
  Text, to_lower, lower_char, trim_space, trim_left, trim_right, is_space, text_eq, contains,
  has_prefix,
}
use ai4se_coding_agent_harne.Text.Keyed
use ai4se_coding_agent_harne.Credentials.{
  locked, Parsers, ParsedUrl, Ref, normalize_ref, trim_dot, has_blank, ref_identity, valid_secret,
  context_error, set, status, new_memory_store,
}
use ai4se_coding_agent_harne.Credentials.Service
use ai4se_coding_agent_harne.Credentials.Stores.{adds, updates, serve, read}
use ai4se_coding_agent_harne.Credentials.Outage
use ai4se_coding_agent_harne.Credentials.RoundTrip.{empty_stores, read-serve, served}
use ai4se_coding_agent_harne.Examples.Fixtures.{ascii, noon}

-- A reader of URLs that takes what follows the two slashes as the host.
abbrev after_slashes : Text → Option ParsedUrl
after_slashes [] = none
after_slashes (a ∷ []) = none
after_slashes (a ∷ (b ∷ host)) = some (record {
  scheme = [];
  has_user = false;
  host = host;
  path = [];
  raw_query = [];
  fragment = [];
  hostname = host;
  port = [];
})

abbrev two_slashes : Parsers
two_slashes = record {
  unicode = ascii;
  is_provider_id = λ id. true;
  parse_url = after_slashes;
  join_host_port = λ host port. host;
}

abbrev github : Ref
github = record { provider = b'G' ∷ []; host = b'h' ∷ (b'.' ∷ []) }

-- What `github` normalizes to, and stays.
abbrev github_normalized : Ref
github_normalized = record { provider = b'g' ∷ []; host = b'h' ∷ [] }

-- The keyring is locked: the vault takes the credential.
serve-answer_example :
    Outage.Agrees
      (Outage.serve two_slashes noon (some locked) (adds github (7 ∷ [])) empty_stores)
      (Outage.answer
        (ref_identity github_normalized)
        (Outage.kept empty_stores.first)
        (Outage.kept empty_stores.second)
        (some locked)
        (adds github (7 ∷ [])))
unfolding normalize_ref to_lower lower_char trim_space trim_left trim_right is_space trim_dot
    has_blank contains has_prefix valid_secret
serve-answer_example =
    Outage.serve-answer two_slashes noon (some locked) (adds github (7 ∷ [])) github_normalized
      github_normalized empty_stores refl refl refl

read-serve_example :
    (read two_slashes none noon github
      (serve two_slashes none noon
        (updates github (8 ∷ []))
        (served two_slashes none noon (adds github (7 ∷ []) ∷ []) empty_stores)).1).0
    ≡ ok (8 ∷ [])
unfolding empty_stores new_memory_store Keyed.find Keyed.store Service.add Service.update
    Service.add_normalized Service.update_normalized Service.inspect Service.inspect_store
    Service.inspection_error Service.configured_backend Service.fallback_eligible set status
    normalize_ref trim_dot has_blank ref_identity valid_secret context_error to_lower lower_char
    trim_space trim_left trim_right is_space text_eq contains has_prefix
read-serve_example =
    read-serve two_slashes none noon (adds github (7 ∷ []) ∷ []) (updates github (8 ∷ [])) refl
