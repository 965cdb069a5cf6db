-- ===== src/Server/Framing/Chunks.antt =====
-- How the bytes were cut into chunks does not matter: the lines are those of the whole stream.
use bantu_os.Prelude.{
  ℕ, zero, suc, ◌+◌, ◌≡◌, ◌≢◌, ◌≤◌, ◌⊎◌, inl, inr, refl, none, some, List, [], ◌∷◌, ◌++◌, eqb,
  length, All, Option-cases, Bool-cases, if◌then◌else◌, arith, sym,
}
use bantu_os.Prelude.Text.{Text, concat}
use bantu_os.Auth.Names.{strip}
use bantu_os.Server.Framing.{split_once, emit, drain, data_received, received}
use mathlib.Core.List.{append_assoc, append-nil}

-- One more byte in front of the first line.
push : ℕ → List Text × Text → List Text × Text
push b ([], left) = ([], b ∷ left)
push b (line ∷ lines, left) = ((b ∷ line) ∷ lines, left)

-- The ended lines of a stream and what follows the last of them, by recursion on the bytes.
unfoldable pub split_all : Text → List Text × Text
unfolding push
split_all [] = ([], [])
split_all (b ∷ rest) =
    let (lines, left) = split_all rest in
    if eqb b 10 then ([] ∷ lines, left) else push b (lines, left)

split_once-none : (s : Text) → split_once s ≡ none → split_all s ≡ ([], s)
unfolding split_once split_all push
split_once-none [] h = refl
split_once-none (b ∷ s) h = ground (arith, split_once-none s)

split_once-some :
    (s line after : Text)
    → split_once s ≡ some (line, after)
    → (split_all s ≡ (line ∷ (split_all after).0, (split_all after).1))
      × (length after + 1 ≤ length s)
unfolding split_once split_all push
split_once-some [] line after h = absurd (cc)
split_once-some (b ∷ s) line after h = elim (Option-cases (split_once s)) [
  | inl e ↦ ground arith
  | inr (v, e) ↦ ground (arith, split_once-some s v.0 v.1 (e))
]

-- What follows an unended line in the stream.
follow : List Text × Text → List Text × Text → List Text × Text
follow (lines, left) (more, last) = (lines ++ more, last)

lines-cases :
    (p : List Text × Text)
    → ((left : Text) × (p ≡ ([], left)))
      ⊎ ((line : Text) × (lines : List Text) × (left : Text) × (p ≡ (line ∷ lines, left)))
lines-cases ([], left) = inl (left, refl)
lines-cases (line ∷ lines, left) = inr (line, lines, left, refl)

-- The stream may be cut anywhere: what is left of the first part stands in front of the second.
split_all-append :
    (s t : Text) → split_all (s ++ t) ≡ follow (split_all s) (split_all ((split_all s).1 ++ t))
unfolding split_all push follow
split_all-append [] t = refl
split_all-append (b ∷ s) t = elim (Bool-cases (eqb b 10)) [
  | inl e ↦ rw (e, split_all-append s t) refl
  | inr e ↦ elim (lines-cases (split_all s)) [
    | inl (left, c) ↦ rw (e, split_all-append s t, c, split_all, e) refl
    | inr (line, lines, left, c) ↦ rw (e, split_all-append s t, c) refl
  ]
]

-- What is left of a stream holds no ended line.
split_all-left : (s : Text) → split_all (split_all s).1 ≡ ([], (split_all s).1)
unfolding split_all push
split_all-left [] = refl
split_all-left (b ∷ s) = elim (Bool-cases (eqb b 10)) [
  | inl e ↦ rw (e, split_all-left s) refl
  | inr e ↦ elim (lines-cases (split_all s)) [
    | inl (left, c) ↦ ground (arith, split_all-left s)
    | inr (line, lines, left, c) ↦ ground (arith, split_all-left s)
  ]
]

-- What `_send` writes for each line: its bytes and b"\n".
unfoldable pub sent : List Text → Text
sent [] = []
sent (line ∷ lines) = (line ++ 10 ∷ []) ++ sent lines

split_all-line :
    (line s : Text)
    → All (λ b. b ≢ 10) line
    → split_all ((line ++ 10 ∷ []) ++ s) ≡ (line ∷ (split_all s).0, (split_all s).1)
unfolding split_all push
split_all-line [] s h = refl
split_all-line (b ∷ line) s h = ground (arith, split_all-line line s h.1)

split_all-sent :
    (lines : List Text) → All (All (λ b. b ≢ 10)) lines → split_all (sent lines) ≡ (lines, [])
unfolding split_all sent
split_all-sent [] h = refl
split_all-sent (line ∷ lines) h =
    rw (split_all-line line (sent lines) h.0, split_all-sent lines h.1) refl

module _ (decode : Text → Text) where
  -- The lines that get a task: decoded, stripped and not empty.
  unfoldable pub tidy : List Text → List Text
  unfolding emit
  tidy [] = []
  tidy (line ∷ lines) = emit (strip (decode line)) (tidy lines)

  drain-split :
      (f : ℕ) (s : Text) → length s ≤ f → drain decode f s ≡ (tidy (split_all s).0, (split_all s).1)
  unfolding drain tidy split_all
  drain-split zero [] h = refl
  drain-split zero (b ∷ s) h = absurd (omega arith)
  drain-split (suc f) s h = elim (Option-cases (split_once s)) [
    | inl e ↦ rw (drain, e, split_once-none s e) refl
    | inr ((line, after), e) ↦
        let cut = split_once-some s line after e in
        rw (drain, e, cut.0, drain-split f after (omega arith)) refl
  ]

  -- The loop on the buffer, which searches the buffer again for each line, finds what one pass over
  -- the bytes finds: the lines, decoded, stripped and not empty, and the bytes of the line that
  -- is not ended. Its rounds are never too few.
  pub data_received-eq-split_all :
      (chunk buffer : Text)
      → data_received decode chunk buffer
        ≡ (tidy (split_all (buffer ++ chunk)).0, (split_all (buffer ++ chunk)).1)
  unfolding data_received
  data_received-eq-split_all chunk buffer =
      drain-split (length (buffer ++ chunk)) (buffer ++ chunk) (omega arith)

  emit-append :
      (line : Text) (lines more : List Text) → emit line lines ++ more ≡ emit line (lines ++ more)
  unfolding emit
  emit-append [] lines more = refl
  emit-append (c ∷ line) lines more = refl

  tidy-append : (lines more : List Text) → tidy (lines ++ more) ≡ tidy lines ++ tidy more
  unfolding tidy
  tidy-append [] more = refl
  tidy-append (line ∷ lines) more =
      rw (tidy-append lines more, emit-append (strip (decode line)) (tidy lines) (tidy more)) refl

  received-eq :
      (chunks : List Text) (buffer : Text)
      → split_all buffer ≡ ([], buffer)
      → received decode chunks buffer
        ≡ (tidy (split_all (buffer ++ concat chunks)).0, (split_all (buffer ++ concat chunks)).1)
  unfolding received concat tidy follow split_all
  received-eq [] buffer h = rw (append-nil buffer, h) refl
  received-eq (chunk ∷ rest) buffer h =
      let s = buffer ++ chunk in
      rw
        (
          data_received-eq-split_all chunk buffer,
          received-eq rest (split_all s).1 (split_all-left s),
          sym (append_assoc buffer chunk (concat rest)),
          split_all-append s (concat rest),
          tidy-append (split_all s).0 (split_all ((split_all s).1 ++ concat rest)).0,
        )
        refl

  -- On a new connection, the lines that the chunks give, and the buffer that is left, are those of
  -- one pass over all the bytes: where the transport cuts the stream makes no difference.
  pub received-eq-split_all :
      (chunks : List Text)
      → received decode chunks []
        ≡ (tidy (split_all (concat chunks)).0, (split_all (concat chunks)).1)
  unfolding split_all
  received-eq-split_all chunks = received-eq chunks [] refl

  -- Lines without b"\n", sent one after the other and cut into any chunks on the way, are received
  -- as these lines in this order (decoded, stripped, and without those that are then empty), and
  -- nothing stays in the buffer.
  pub received-sent :
      (lines chunks : List Text)
      → All (All (λ b. b ≢ 10)) lines
      → concat chunks ≡ sent lines
      → received decode chunks [] ≡ (tidy lines, [])
  received-sent lines chunks h cut =
      rw (received-eq-split_all chunks, cut, split_all-sent lines h) refl
