-- ===== src/Payloads/Integrity.antt =====
-- What a pointer brings back.
use enterprise_multi_agent_s.Prelude.{
  String, ◌≡◌, refl, sym, ap, subst, ◌∙◌, true, false, not, ◌||◌, ◌==◌, eq_iff, eq_refl, arith,
  is_some, Bool-cases, inl, inr,
}
use enterprise_multi_agent_s.Python.Text.{after_prefix}
use enterprise_multi_agent_s.Python.Text.Prefixes.{after_prefix-append}
use enterprise_multi_agent_s.Python.Result.{Result, ok, ok-injective, err-ok}
use enterprise_multi_agent_s.Python.Exec.{Exec, bind-ok, catch, pure, lift, continue}
use enterprise_multi_agent_s.Python.Json.{bool, get, truthy, truthy-put, text_or_empty-str}
use enterprise_multi_agent_s.Runtime.{Runtime, IsRuntime}
use enterprise_multi_agent_s.Events.{EventEnvelope, to_json, from_json, event_payload_hash}
use enterprise_multi_agent_s.Events.RoundTrip.{IsCanonical, in_order, from_json-to_json}
use enterprise_multi_agent_s.Payloads.{
  ContainerClient, is_pointer, is_digest, blob_name_of, check_existing, pointer_to, prepare,
  same_event, read_payload, follow, resolve,
}

module _ {Bytes W : Type 0} (rt : Runtime Bytes) (container : ContainerClient Bytes W) where
  -- An envelope that was read for the event, from bytes with the expected digest.
  pub record IsResolved (now : String) (event : EventEnvelope) (expected_hash : String)
      (r : EventEnvelope) : Type 0 where
    pub payload : Bytes
    pub intact : rt.sha256 payload ≡ expected_hash
    pub read : from_json rt now payload ≡ ok r
    pub same : (r.id ≡ event.id) × (r.source ≡ event.source)

  same_event-ok :
      (event resolved r : EventEnvelope)
      → same_event rt container event resolved ≡ ok r
      → (resolved ≡ r) × (resolved.id ≡ event.id) × (resolved.source ≡ event.source)
  unfolding same_event
  same_event-ok event resolved r h =
      elim (Bool-cases (not (resolved.id == event.id) || not (resolved.source == event.source))) [
        | inl other ↦ absurd (err-ok (rw other at h))
        | inr same ↦ (
          ok-injective (rw same at h),
          ground (arith, eq_iff resolved.id event.id, same),
          ground (arith, eq_iff resolved.source event.source, same),
        )
      ]

  read_payload-ok :
      (now expected_hash : String) (event r : EventEnvelope) (payload : Bytes) (w : W)
      → (read_payload rt container now event expected_hash payload w).0 ≡ ok r
      → IsResolved now event expected_hash r
  unfolding read_payload
  read_payload-ok now expected_hash event r payload w h =
      elim (Bool-cases (rt.sha256 payload == expected_hash)) [
        | inr damaged ↦ absurd (err-ok (rw damaged at h))
        | inl intact ↦
            let h1 : (continue (from_json rt now payload)
                  (λ resolved. lift (same_event rt container event resolved)) w).0
                ≡ ok r =
              rw intact at h in
            let (resolved, read, next) =
              bind-ok (lift (from_json rt now payload))
                (λ resolved. lift (same_event rt container event resolved)) w r h1 in
            let (same, id, source) =
              same_event-ok event resolved r
                (ap (λ (x : Result EventEnvelope × W). x.0) (sym next) ∙ h1) in
            subst (IsResolved now event expected_hash) same (record {
              payload = payload;
              intact = (eq_iff _ _).0 intact;
              read = read;
              same = (id, source);
            })
      ]

  follow-ok :
      (now : String) (event r : EventEnvelope) (name_of_container blob_name hash : String) (w : W)
      → (follow rt container now event name_of_container blob_name hash w).0 ≡ ok r
      → IsResolved now event hash r
  unfolding follow
  follow-ok now event r name_of_container blob_name hash w h =
      elim (Bool-cases (
        not (name_of_container == container.container_name)
        || not (is_some (after_prefix "events/" blob_name)))) [
          | inl astray ↦ absurd (err-ok (rw astray at h))
          | inr placed ↦ elim (Bool-cases (is_digest hash)) [
            | inr malformed ↦ absurd (err-ok (rw (placed, malformed) at h))
            | inl formed ↦
                let step = λ (b : Bytes). read_payload rt container now event hash b in
                let h1 : (continue (container.download_blob blob_name w).0 step
                      (container.download_blob blob_name w).1).0
                    ≡ ok r =
                  rw (placed, formed) at h in
                let (payload, there, next) =
                  bind-ok (container.download_blob blob_name) step w r h1 in
                read_payload-ok now hash event r payload (container.download_blob blob_name w).1
                  (ap (λ (x : Result EventEnvelope × W). x.0) (sym next) ∙ h1)
          ]
        ]

  -- What prepare() returns of an envelope that is no pointer.
  prepare-ok :
      (e p : EventEnvelope) (w : W)
      → is_pointer e ≡ false
      → (prepare rt container e w).0 ≡ ok p
      → pointer_to rt container e ≡ p
  unfolding prepare
  prepare-ok e p w plain h =
      let upload =
        catch
          (container.upload_blob (blob_name_of rt container e) (to_json rt e)
            (rt.sha256 (to_json rt e), event_payload_hash rt e))
          (check_existing rt container (blob_name_of rt container e) (rt.sha256 (to_json rt e))
            (event_payload_hash rt e)) in
      let last = λ (u : Unit {0}). pure {S = W} (pointer_to rt container e) in
      let h1 : (continue (upload w).0 last (upload w).1).0 ≡ ok p = rw plain at h in
      let (u, stored, next) = bind-ok upload last w p h1 in
      ok-injective (ap (λ (x : Result EventEnvelope × W). x.0) (sym next) ∙ h1)

  -- A pointer is followed to the blob of its event.
  resolve-pointer :
      (now : String) (e : EventEnvelope)
      → resolve rt container now (pointer_to rt container e)
        ≡ follow rt container now
            (pointer_to rt container e)
            container.container_name
            (blob_name_of rt container e)
            (rt.sha256 (to_json rt e))
  unfolding resolve is_pointer get
  resolve-pointer now e =
      rw (truthy-put e.metadata "payload_offloaded" (bool true) (unfold truthy in refl)) (
        rw
          (
            text_or_empty-str rt.repr container.container_name,
            text_or_empty-str rt.repr (blob_name_of rt container e),
            text_or_empty-str rt.repr (rt.sha256 (to_json rt e)),
          )
          refl)

  -- When prepare of an envelope that is no pointer returns, and resolve of what it returned
  -- returns later, in any state of the container: the result was read from bytes with the digest
  -- of the envelope's JSON text, and has the envelope's id and source.
  pub resolve-prepare :
      (e p r : EventEnvelope) (now : String) (w w' : W)
      → is_pointer e ≡ false
      → (prepare rt container e w).0 ≡ ok p
      → (resolve rt container now p w').0 ≡ ok r
      → IsResolved now e (rt.sha256 (to_json rt e)) r
  resolve-prepare e p r now w w' plain prepared resolved =
      let h : (resolve rt container now (pointer_to rt container e) w').0 ≡ ok r =
        subst (λ (x : EventEnvelope). (resolve rt container now x w').0 ≡ ok r)
          (sym (prepare-ok e p w plain prepared)) resolved in
      let found =
        follow-ok now (pointer_to rt container e) r container.container_name
          (blob_name_of rt container e) (rt.sha256 (to_json rt e)) w'
          (ap (λ (m : Exec W EventEnvelope). (m w').0) (sym (resolve-pointer now e)) ∙ h) in
      record {
        payload = found.payload;
        intact = found.intact;
        read = found.read;
        same = found.same;
      }

  follow-intact :
      (laws : IsRuntime rt) (now : String) (e : EventEnvelope) (w : W)
      → IsCanonical e
      → is_digest (rt.sha256 (to_json rt e)) ≡ true
      → (container.download_blob (blob_name_of rt container e) w).0 ≡ ok (to_json rt e)
      → (follow rt container now
          (pointer_to rt container e)
          container.container_name
          (blob_name_of rt container e)
          (rt.sha256 (to_json rt e))
          w).0
        ≡ ok (in_order e)
  unfolding follow read_payload same_event
  follow-intact laws now e w canonical formed there =
      let placed : is_some (after_prefix "events/" (blob_name_of rt container e)) ≡ true =
        unfold blob_name_of in rw (after_prefix-append "events/" _) refl in
      rw (eq_refl container.container_name, placed, formed)
        (rw there (
          rw (eq_refl (rt.sha256 (to_json rt e)), from_json-to_json rt laws now e canonical)
            (rw (eq_refl e.id, eq_refl e.source) refl)))

  -- For a JSON codec that reads back what it writes with the keys in order, and an envelope that
  -- is no pointer, has a receipt time and no empty subject, and whose text has a digest of 64
  -- hexadecimal digits: when prepare returned and the container still has the text, resolve
  -- returns the envelope with the keys of its data and metadata in order.
  pub resolve-prepare_intact :
      (laws : IsRuntime rt) (e p : EventEnvelope) (now : String) (w w' : W)
      → IsCanonical e
      → is_pointer e ≡ false
      → is_digest (rt.sha256 (to_json rt e)) ≡ true
      → (prepare rt container e w).0 ≡ ok p
      → (container.download_blob (blob_name_of rt container e) w').0 ≡ ok (to_json rt e)
      → (resolve rt container now p w').0 ≡ ok (in_order e)
  resolve-prepare_intact laws e p now w w' canonical plain formed prepared there =
      subst (λ (x : EventEnvelope). (resolve rt container now x w').0 ≡ ok (in_order e))
        (prepare-ok e p w plain prepared)
        (ap (λ (m : Exec W EventEnvelope). (m w').0) (resolve-pointer now e)
          ∙ follow-intact laws now e w' canonical formed there)
