-- ===== src/KeyRegistry/Derivation.antt =====
-- What internal/keyregistry/keyregistry.go's DeriveKeyID hashes: which snapshots share a key_id.
use openbao_kubernetes_kms.Base.{
  ◌≤◌, ◌<◌, ◌≡◌, refl, sym, ◌∙◌, List, [], ◌∷◌, ◌++◌, arith, All, Text, ℤ, pos_part, neg_part, itoa,
  atoi-itoa, int_limit, itoa_bytes, if◌then◌else◌,
}
use mathlib.Core.List.{append_assoc, append-nil}
use openbao_kubernetes_kms.KeyRegistry.Snapshot.{
  KeySnapshot, is_empty, append_part, append_parts, key_id_parts, key_id_domain,
}

-- Text without zero bytes.
abbrev pub NulFree : Text → Type 0
NulFree = All (λ c. 0 < c)

-- The hashed text as a recursion on the parts.
frames : List Text → Text
frames [] = []
frames (p ∷ ps) = p ++ 0 ∷ frames ps

append_parts-frames : (input : Text) (ps : List Text) → append_parts input ps ≡ input ++ frames ps
unfolding append_parts append_part frames
append_parts-frames input [] = sym (append-nil input)
append_parts-frames input (p ∷ ps) =
    rw (append_parts-frames (input ++ p ++ 0 ∷ []) ps) (simp append_assoc)

-- Up to its first zero byte, a text is determined.
frame_unique :
    (p q r s : Text) → NulFree p → NulFree q → p ++ 0 ∷ r ≡ q ++ 0 ∷ s → (p ≡ q) × (r ≡ s)
frame_unique [] [] r s hp hq e = ground arith
frame_unique [] (c ∷ q) r s hp hq e = absurd (ground arith)
frame_unique (c ∷ p) [] r s hp hq e = absurd (ground arith)
frame_unique (c ∷ p) (d ∷ q) r s hp hq e = ground (arith, frame_unique p q r s)

frame_not_empty : (p r : Text) → [] ≡ p ++ 0 ∷ r → ⊥
frame_not_empty [] r e = cc
frame_not_empty (c ∷ p) r e = cc

frames-injective :
    (ps qs : List Text) → All NulFree ps → All NulFree qs → frames ps ≡ frames qs → ps ≡ qs
unfolding frames
frames-injective [] [] hp hq e = refl
frames-injective [] (q ∷ qs) hp hq e = absurd (frame_not_empty q (frames qs) e)
frames-injective (p ∷ ps) [] hp hq e = absurd (frame_not_empty p (frames ps) (sym e))
frames-injective (p ∷ ps) (q ∷ qs) hp hq e =
    let (h, t) = frame_unique p q (frames ps) (frames qs) hp.0 hq.0 e in
    cc (frames-injective ps qs hp.1 hq.1 t)

-- The fields that the key_id stands for.
pub record SameIdentity (s t : KeySnapshot) : Type 0 where
  pub provider_name : s.provider_name ≡ t.provider_name
  pub cluster_id : s.cluster_id ≡ t.cluster_id
  pub instance_id : s.instance_id ≡ t.instance_id
  pub namespace : s.namespace ≡ t.namespace
  pub mount_id : s.mount_id ≡ t.mount_id
  pub lineage_id : s.lineage_id ≡ t.lineage_id
  pub transit_version : s.transit_version ≡ t.transit_version

-- The identity texts hold no zero byte, and the version is an int.
pub record IsPlain (s : KeySnapshot) : Type 0 where
  pub provider_name : NulFree s.provider_name
  pub cluster_id : NulFree s.cluster_id
  pub instance_id : NulFree s.instance_id
  pub namespace : NulFree s.namespace
  pub mount_id : NulFree s.mount_id
  pub lineage_id : NulFree s.lineage_id
  pub version_above : pos_part s.transit_version < int_limit
  pub version_below : neg_part s.transit_version ≤ int_limit

-- The domain's bytes.
domain_bytes : NulFree key_id_domain
domain_bytes = omega arith

key_id_parts-All :
    (s : KeySnapshot) (created : ℤ) → IsPlain s → All NulFree (key_id_parts s created)
unfolding key_id_parts
key_id_parts-All s created h = go s.namespace h.namespace
  where
    tail_parts :
        All NulFree (s.mount_id ∷ s.lineage_id ∷ itoa s.transit_version ∷ itoa created ∷ [])
    tail_parts =
        (h.mount_id, (h.lineage_id, (itoa_bytes s.transit_version, (itoa_bytes created, tt))))

    go :
        (n : Text)
        → NulFree n
        → All NulFree (
            key_id_domain
            ∷ s.provider_name
            ∷ s.cluster_id
            ∷ s.instance_id
            ∷ ((if is_empty n then [] else n ∷ [])
                ++ s.mount_id ∷ s.lineage_id ∷ itoa s.transit_version ∷ itoa created ∷ []))
    go [] hn = (domain_bytes, (h.provider_name, (h.cluster_id, (h.instance_id, tail_parts))))
    go (c ∷ n) hn =
        (domain_bytes, (h.provider_name, (h.cluster_id, (h.instance_id, (hn, tail_parts)))))

itoa-injective :
    (v w : ℤ)
    → pos_part v < int_limit
    → neg_part v ≤ int_limit
    → pos_part w < int_limit
    → neg_part w ≤ int_limit
    → itoa v ≡ itoa w
    → v ≡ w
itoa-injective v w a b c d e = cc (atoi-itoa v a b, atoi-itoa w c d)

-- The parts of a namespace that may be left out, with what stands behind them.
optional_parts :
    (m n a b c d a' b' c' d' : Text)
    → (if is_empty m then [] else m ∷ []) ++ a ∷ b ∷ c ∷ d ∷ []
      ≡ (if is_empty n then [] else n ∷ []) ++ a' ∷ b' ∷ c' ∷ d' ∷ []
    → (m ≡ n) × (a ≡ a') × (b ≡ b') × (c ≡ c') × (d ≡ d')
optional_parts [] [] a b c d a' b' c' d' e = ground arith
optional_parts [] (y ∷ n) a b c d a' b' c' d' e = absurd (ground arith)
optional_parts (x ∷ m) [] a b c d a' b' c' d' e = absurd (ground arith)
optional_parts (x ∷ m) (y ∷ n) a b c d a' b' c' d' e = ground arith

-- Two snapshots are hashed from one text only if they agree in every field of the identity, the
-- Transit version and the creation second included, so long as no field holds a zero byte: leaving
-- out an empty namespace makes no two texts alike.
pub key_id_input-injective :
    (s t : KeySnapshot) (u v : ℤ)
    → IsPlain s
    → IsPlain t
    → pos_part u < int_limit
    → neg_part u ≤ int_limit
    → pos_part v < int_limit
    → neg_part v ≤ int_limit
    → append_parts [] (key_id_parts s u) ≡ append_parts [] (key_id_parts t v)
    → SameIdentity s t × (u ≡ v)
unfolding key_id_parts
key_id_input-injective s t u v hs ht a b c d e =
    let f : frames (key_id_parts s u) ≡ frames (key_id_parts t v) =
      sym (append_parts-frames [] (key_id_parts s u))
      ∙ e
      ∙ append_parts-frames [] (key_id_parts t v) in
    let p =
      frames-injective (key_id_parts s u) (key_id_parts t v) (key_id_parts-All s u hs)
        (key_id_parts-All t v ht) f in
    let (o0, o1, o2, o3, o4) =
      optional_parts s.namespace t.namespace s.mount_id s.lineage_id (itoa s.transit_version)
        (itoa u) t.mount_id t.lineage_id (itoa t.transit_version) (itoa v) (cc p) in
    (
      record {
        provider_name = cc p;
        cluster_id = cc p;
        instance_id = cc p;
        namespace = o0;
        mount_id = o1;
        lineage_id = o2;
        transit_version =
            itoa-injective s.transit_version t.transit_version hs.version_above hs.version_below
              ht.version_above ht.version_below o3;
      },
      itoa-injective u v a b c d o4,
    )
