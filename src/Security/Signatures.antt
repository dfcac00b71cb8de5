-- ===== src/Security/Signatures.antt =====
-- What a verified request is.
use Prim.Native.String.{count, ◌++◌ as append}
use enterprise_multi_agent_s.Prelude.{
  ℕ, ◌*◌, ◌≤◌, String, ◌≡◌, ◌≢◌, sym, ap, ◌∙◌, refl, ◌↔◌, true, false, some, Option-cases, ◌==◌,
  eq_iff, arith, ℤ, distance, Bool-cases, inl, inr,
}
use enterprise_multi_agent_s.Python.Text.{after_prefix, removeprefix, is_ascii, parse_int}
use enterprise_multi_agent_s.Python.Text.Prefixes.{after_prefix-append, is_ascii-append, append-ne}
use enterprise_multi_agent_s.Python.Result.{ok}
use enterprise_multi_agent_s.Python.Json.{Json, str, truthy}
use enterprise_multi_agent_s.Runtime.{Runtime}
use enterprise_multi_agent_s.Security.{
  is_configured_secret, compare_digest, require_secret, verify_github_signature,
  verify_timestamped_signature, verify_client_state,
}

-- A hexadecimal digest is ASCII.
abbrev pub HasAsciiDigests : {Bytes : Type 0} → Runtime Bytes → Type 0
HasAsciiDigests {Bytes} rt = (key message : Bytes) → is_ascii (rt.hmac_sha256 key message) ≡ true

module _ {Bytes : Type 0} (rt : Runtime Bytes) where
  pub github_digest : Bytes → String → String
  github_digest body secret = append "sha256=" (rt.hmac_sha256 (rt.encode secret) body)

  -- For a digest function with ASCII digits: a GitHub delivery verifies exactly when the secret is
  -- configured and the signature is sha256= followed by the digest of the body.
  pub verify_github_signature-ok_iff :
      (hex : HasAsciiDigests rt) (body : Bytes) (signature secret : String)
      → (verify_github_signature rt body signature secret ≡ ok tt) ↔ (
          (is_configured_secret (some secret) ≡ true)
          × (signature ≡ append "sha256=" (rt.hmac_sha256 (rt.encode secret) body)))
  unfolding verify_github_signature require_secret compare_digest after_prefix is_ascii
  verify_github_signature-ok_iff hex body signature secret =
      let digest = rt.hmac_sha256 (rt.encode secret) body in
      (
        λ h. ground (arith, eq_iff (append "sha256=" digest) signature),
        λ p. ground (
          arith,
          eq_iff (append "sha256=" digest) signature,
          after_prefix-append "sha256=" digest,
          is_ascii-append "sha256=" digest,
          append-ne "sha256=" digest "" refl,
          hex (rt.encode secret) body,
        ),
      )

number-nonempty : (t : String) (n : ℤ) → parse_int t ≡ some n → (t == "") ≡ false
unfolding parse_int
number-nonempty t n h = elim (Bool-cases (t == "")) [
  | inl e ↦ absurd (empty_is_no_number (ap parse_int (sym ((eq_iff t "").0 e)) ∙ h))
  | inr e ↦ e
]
  where
    empty_is_no_number : parse_int "" ≢ some n
    empty_is_no_number p = cc

digest-nonempty : (s : String) → count (removeprefix s "sha256=") ≡ 64 → (s == "") ≡ false
unfolding after_prefix
digest-nonempty s h = elim (Bool-cases (s == "")) [
  | inl e ↦ absurd (
      empty_is_no_digest
        (ap (λ (t : String). count (removeprefix t "sha256=")) (sym ((eq_iff s "").0 e)) ∙ h))
  | inr e ↦ e
]
  where
    empty_is_no_digest : count (removeprefix "" "sha256=") ≢ 64
    empty_is_no_digest p = omega arith

-- A digest has 64 hexadecimal digits.
abbrev pub HasLongDigests : {Bytes : Type 0} → Runtime Bytes → Type 0
HasLongDigests {Bytes} rt = (key message : Bytes) → count (rt.hmac_sha256 key message) ≡ 64

module _ {Bytes : Type 0} (rt : Runtime Bytes) where
  -- The digest that a generic delivery must carry.
  abbrev pub timestamped_digest : Bytes → String → String → String
  timestamped_digest body timestamp secret =
      rt.hmac_sha256 (rt.encode secret)
        (rt.concat (rt.concat (rt.encode timestamp) (rt.encode ".")) body)

  module _ (body : Bytes) (signature timestamp secret : String) (tolerance now : ℕ) where
    -- The delivery was signed with the secret, within the tolerance.
    pub record IsFresh : Type 0 where
      pub sent_at : ℤ
      pub parses : parse_int timestamp ≡ some sent_at
      pub recent : distance now 1000000 sent_at ≤ 1000000 * tolerance
      pub ascii : is_ascii timestamp ≡ true
      pub configured : is_configured_secret (some secret) ≡ true
      pub signed : removeprefix signature "sha256=" ≡ timestamped_digest body timestamp secret

    fresh_of_verified :
        HasAsciiDigests rt
        → verify_timestamped_signature rt body signature timestamp secret tolerance now ≡ ok tt
        → IsFresh
    unfolding verify_timestamped_signature require_secret compare_digest
    fresh_of_verified hex h = elim (Option-cases (parse_int timestamp)) [
      | inl unread ↦ absurd (ground arith)
      | inr (n, read) ↦ record {
        sent_at = n;
        parses = read;
        recent = ground arith;
        ascii = ground arith;
        configured = ground arith;
        signed = ground (
          arith,
          eq_iff (timestamped_digest body timestamp secret) (removeprefix signature "sha256="),
        );
      }
    ]

    verified_of_fresh :
        HasAsciiDigests rt
        → HasLongDigests rt
        → IsFresh
        → verify_timestamped_signature rt body signature timestamp secret tolerance now ≡ ok tt
    unfolding verify_timestamped_signature require_secret compare_digest
    verified_of_fresh hex long f =
        let digest = timestamped_digest body timestamp secret in
        ground (
          arith,
          digest-nonempty signature,
          number-nonempty timestamp f.sent_at,
          eq_iff digest (removeprefix signature "sha256="),
          hex (rt.encode secret) (rt.concat (rt.concat (rt.encode timestamp) (rt.encode ".")) body),
          long (rt.encode secret)
              (rt.concat (rt.concat (rt.encode timestamp) (rt.encode ".")) body),
        )

    -- For a digest function with 64 ASCII digits: a generic delivery verifies exactly when its
    -- timestamp is an ASCII integer within the tolerance of the clock, the secret is configured,
    -- and the signature without its prefix is the digest of timestamp, dot and body.
    pub verify_timestamped_signature-ok_iff :
        (hex : HasAsciiDigests rt) (long : HasLongDigests rt)
        → (verify_timestamped_signature rt body signature timestamp secret tolerance now ≡ ok tt)
          ↔ IsFresh
    verify_timestamped_signature-ok_iff hex long =
        (fresh_of_verified hex, verified_of_fresh hex long)

configured-truthy :
    (text : String) → is_configured_secret (some text) ≡ true → truthy (str text) ≡ true
unfolding is_configured_secret truthy
configured-truthy text h = ground arith

-- A client state verifies exactly when the expected one is configured and ASCII and the received
-- value is that text.
pub verify_client_state-ok_iff :
    (received : Json) (expected : String)
    → (verify_client_state received expected ≡ ok tt) ↔ (
        (is_configured_secret (some expected) ≡ true)
        × (is_ascii expected ≡ true)
        × (received ≡ str expected))
unfolding verify_client_state compare_digest
verify_client_state-ok_iff (str text) expected = (
  λ h. ground (arith, eq_iff text expected),
  λ p. ground (arith, eq_iff text expected, configured-truthy expected),
)
verify_client_state-ok_iff received expected = (λ h. ground arith, λ p. ground arith)
