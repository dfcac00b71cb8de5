-- ===== src/Tests/Samples.antt =====
-- A runtime over JSON values instead of bytes, and sample events.
use Prim.Native.String.{◌++◌ as append, count}
use enterprise_multi_agent_s.Prelude.{
  String, ◌≡◌, refl, true, Option, some, pos, eq_iff, false≢true,
}
use enterprise_multi_agent_s.Python.Text.{decimal_ℤ, is_ascii}
use enterprise_multi_agent_s.Python.Json.{
  Json, null, bool, int, float, str, arr, obj, Items, nil, item, Fields, end, field, sort_keys,
}
use enterprise_multi_agent_s.Runtime.{Runtime, IsRuntime}
use enterprise_multi_agent_s.Events.{EventEnvelope}
use enterprise_multi_agent_s.Events.RoundTrip.{IsCanonical}

-- A text for each value, in place of a digest.
unfoldable mutual
  pub print : Json → String
  print null = "null"
  print (bool b) = "bool"
  print (int z) = decimal_ℤ z
  print (float t) = t
  print (str s) = append "'" (append s "'")
  print (arr xs) = append "[" (print_items xs)
  print (obj fs) = append "{" (print_fields fs)

  pub print_items : Items → String
  print_items nil = "]"
  print_items (item x xs) = append (print x) (print_items xs)

  pub print_fields : Fields → String
  print_fields end = "}"
  print_fields (field k v fs) = append k (append ":" (append (print v) (print_fields fs)))

abbrev pub sample_digest : String
sample_digest = "0123456789abcdef0123456789abcdef0123456789abcdef0123456789abcdef"

abbrev pub sample_runtime : Runtime Json
unfolding print
sample_runtime = record {
  repr = print;
  dumps = sort_keys;
  loads = some;
  sha256 = print;
  hmac_sha256 = λ key message. sample_digest;
  encode = str;
  concat = λ a b. arr (item a (item b nil));
}

pub sample_runtime-IsRuntime : IsRuntime sample_runtime
unfolding print
sample_runtime-IsRuntime = record { loads-dumps = λ v. refl }

pub sample_ascii : is_ascii sample_digest ≡ true
unfolding is_ascii
sample_ascii = refl

pub sample_count : count sample_digest ≡ 64
sample_count = refl

abbrev pub opened : EventEnvelope
opened = record {
  id = "d1";
  source = "github";
  type = "issues";
  event_data = field "n" (int (pos 7)) (field "action" (str "opened") end);
  correlation_id = "d1";
  received_at = "2026-01-01T00:00:00+00:00";
  subject = some "org/repo";
  metadata = end;
  version = "1";
}

pub opened-IsCanonical : IsCanonical opened
opened-IsCanonical = record {
  received = λ p. false≢true ((eq_iff opened.received_at "").1 p);
  named = λ p. false≢true ((eq_iff "org/repo" "").1 (some_text p));
}
  where
    some_text : ◌≡◌ {A = Option String} (some "org/repo") (some "") → ◌≡◌ {A = String} "org/repo" ""
    some_text p = cc
