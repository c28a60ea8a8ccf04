-- ===== src/Process/Stream.antt =====
-- What a sequence of messages says of one of its byte streams, latest message first. A message
-- carries a chunk, and a flag that ends the stream: no chunk of a later message belongs to it.
use clustertest.Prelude.{
  ◌≡◌, refl, sym, ap, ◌∙◌, append-nil, append_assoc, Bool, false, List, [], ◌∷◌, ◌++◌, ◌||◌,
  if◌then◌else◌,
}
use clustertest.Process.Types.{Bytes}

module _ {M : Type 0} (chunk : M → Bytes) (done : M → Bool) where
  unfoldable pub has_ended : List M → Bool
  has_ended [] = false
  has_ended (m ∷ past) = has_ended past || done m

  unfoldable pub payload : List M → Bytes
  unfolding has_ended
  payload [] = []
  payload (m ∷ past) = payload past ++ (if has_ended past then [] else chunk m)

  pub has_ended-cons : (m : M) (past : List M) → has_ended (m ∷ past) ≡ (has_ended past || done m)
  unfolding has_ended
  has_ended-cons m past = refl

  pub payload-cons :
      (m : M) (past : List M)
      → payload (m ∷ past) ≡ payload past ++ (if has_ended past then [] else chunk m)
  unfolding payload
  payload-cons m past = refl

-- The messages `l`, read one after the other on top of the history `past`.
abbrev pub read_on {ℓ} : {M : Type ℓ} → List M → List M → List M
read_on [] past = past
read_on (m ∷ l) past = read_on l (m ∷ past)

pub read_on-append {ℓ} :
    {M : Type ℓ} (k l past : List M) → read_on (k ++ l) past ≡ read_on l (read_on k past)
read_on-append [] l past = refl
read_on-append (m ∷ k) l past = read_on-append k l (m ∷ past)

module _ {M : Type 0} (chunk : M → Bytes) (done : M → Bool) where
  -- More messages only add to the payload.
  pub payload-read_on :
      (l past : List M)
      → (more : Bytes) × (payload chunk done (read_on l past) ≡ payload chunk done past ++ more)
  payload-read_on [] past = ([], sym (append-nil _))
  payload-read_on (m ∷ l) past =
      let (more, e) = payload-read_on l (m ∷ past) in
      let chunk_of : Bytes = if has_ended chunk done past then [] else chunk m in
      (
        chunk_of ++ more,
        e
            ∙ ap (λ p. p ++ more) (payload-cons chunk done m past)
            ∙ append_assoc (payload chunk done past) chunk_of more,
      )
