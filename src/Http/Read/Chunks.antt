-- ===== src/Http/Read/Chunks.antt =====
-- How the bytes of a message are cut into chunks does not matter.
use distributed_layer_infere.Common.{
  le→ltb, if_true, if_false, ℕ, ◌+◌, ◌≤◌, ◌≡◌, inl, inr, refl, sym, ap, ◌∙◌, arith, Bool, true,
  false, if◌then◌else◌, leb→le, Bool-cases, Option, none, some, Option-cases, List, [], ◌∷◌, ◌++◌,
  Result, ok, err, ◌>>=◌, Bytes, length, length-append, take, drop, take-append, drop-append,
  length-drop, concat,
}
use mathlib.Core.Path.{subst}
use mathlib.Core.List.{append_assoc, append-nil}
use distributed_layer_infere.Http.Text.{lines}
use distributed_layer_infere.Http.Message.{
  HttpError, max_header_bytes, parse_content_length, parse_http_request, request_if, request_from,
}
use distributed_layer_infere.Http.Read.{
  Kind, Ending, request_kind, find_header_end, cut_message, expected_size, has_body, after_length,
  after_header, read_chunks, read_http_request,
}
use distributed_layer_infere.Http.Read.HeaderEnd.{
  find_header_end-length, find_header_end-append, find_header_end_late,
}

-- The header ends early enough, or, if it does not end, there are not too many bytes.
abbrev pub HeaderFits : Bytes → Option ℕ → Type 0
HeaderFits bytes none = length bytes ≤ max_header_bytes
HeaderFits bytes (some e) = e + 3 ≤ max_header_bytes

-- The length that a header asks for does not depend on the body that it is parsed with.
abbrev pub IsHeaderOnly : {M : Type 0} → Kind M → Type 0
IsHeaderOnly kind =
    (h b b' : Bytes)
    → (kind.parse h b >>= λ m. parse_content_length (kind.headers_of m))
      ≡ (kind.parse h b' >>= λ m. parse_content_length (kind.headers_of m))

module _ {M : Type 0} (kind : Kind M) (ending : Ending) where
  -- The reference: the message in all the bytes that the connection gives.
  abbrev pub whole_body : Bytes → ℕ → ℕ → Result HttpError M
  whole_body bytes e n =
      if has_body kind ending bytes e n
      then cut_message kind ending bytes e n
      else kind.at_end ending bytes (some (e, n))

  abbrev pub whole_from : Bytes → Option ℕ → Result HttpError M
  whole_from bytes none = kind.at_end ending bytes none
  whole_from bytes (some e) = expected_size kind ending bytes e >>= λ n. whole_body bytes e n

  abbrev pub read_whole : Bytes → Result HttpError M
  read_whole bytes = whole_from bytes (find_header_end bytes)

  -- The bytes behind a full body are not looked at.
  has_body-append :
      (b c : Bytes) (e n : ℕ)
      → e + 4 ≤ length b
      → has_body kind ending b e n ≡ true
      → has_body kind ending (b ++ c) e n ≡ true
  has_body-append b c e n h k = ground (arith, length-append b c)

  cut_message-append :
      (b c : Bytes) (e n : ℕ)
      → e + 4 ≤ length b
      → has_body kind ending b e n ≡ true
      → cut_message kind ending (b ++ c) e n ≡ cut_message kind ending b e n
  cut_message-append b c e n h k =
      let long : n ≤ length (drop (e + 4) b) = omega (arith, length-drop (e + 4) b, leb→le n _ k) in
      ap (λ t. kind.parse t (take n (drop (e + 4) (b ++ c)))) (take-append e b c (omega arith))
      ∙ ap (kind.parse (take e b))
          (ap (take n) (drop-append (e + 4) b c h) ∙ take-append n (drop (e + 4) b) c long)

  whole_body-append :
      (b c : Bytes) (e n : ℕ)
      → e + 4 ≤ length b
      → has_body kind ending b e n ≡ true
      → cut_message kind ending b e n ≡ whole_body (b ++ c) e n
  whole_body-append b c e n h k =
      sym (if_true _ _ (has_body-append b c e n h k) ∙ cut_message-append b c e n h k)

  read_body :
      (cs : List Bytes) (b : Bytes) (e n : ℕ)
      → e + 4 ≤ length b
      → has_body kind ending b e n ≡ false
      → read_chunks kind ending cs b (some (e, n)) ≡ whole_body (b ++ concat cs) e n
  unfolding read_chunks
  read_body [] b e n h k = sym (ap (λ t. whole_body t e n) (append-nil b) ∙ if_false _ _ k)
  read_body (c ∷ cs) b e n h k =
      let longer : e + 4 ≤ length (b ++ c) = omega (arith, length-append b c) in
      let joined = ap (λ t. whole_body t e n) (append_assoc b c (concat cs)) in
      elim (Bool-cases (has_body kind ending (b ++ c) e n)) [
        | inl full ↦
            if_true _ _ full ∙ whole_body-append (b ++ c) (concat cs) e n longer full ∙ joined
        | inr short ↦ if_false _ _ short ∙ read_body cs (b ++ c) e n longer short ∙ joined
      ]

  -- Bytes without an end of the header are few when the header fits.
  few_bytes :
      (b c : Bytes) (o : Option ℕ)
      → find_header_end b ≡ none
      → find_header_end (b ++ c) ≡ o
      → HeaderFits (b ++ c) o
      → length b ≤ max_header_bytes
  few_bytes b c none absent here fits = omega (arith, length-append b c)
  few_bytes b c (some e) absent here fits = omega (arith, find_header_end_late b c e absent here)

  bind_ext :
      (r : Result HttpError ℕ) (f g : ℕ → Result HttpError M)
      → ((n : ℕ) → f n ≡ g n)
      → (r >>= f) ≡ (r >>= g)
  bind_ext (ok n) f g h = h n
  bind_ext (err e) f g h = refl

  module _ (lawful : IsHeaderOnly kind) where
    expected_size-append :
        (b c : Bytes) (e : ℕ)
        → e + 4 ≤ length b
        → expected_size kind ending b e ≡ expected_size kind ending (b ++ c) e
    expected_size-append b c e h =
        lawful (take e b) (drop (e + 4) b) (drop (e + 4) (b ++ c))
        ∙ ap
            (λ t. kind.parse t (drop (e + 4) (b ++ c)) >>= λ m.
              parse_content_length (kind.headers_of m))
            (sym (take-append e b c (omega arith)))

    after_length-whole :
        (cs : List Bytes) (b : Bytes) (e n : ℕ)
        → e + 4 ≤ length b
        → after_length kind ending (read_chunks kind ending cs) b e n
          ≡ whole_body (b ++ concat cs) e n
    after_length-whole cs b e n h = elim (Bool-cases (has_body kind ending b e n)) [
      | inl full ↦ if_true _ _ full ∙ whole_body-append b (concat cs) e n h full
      | inr short ↦ if_false _ _ short ∙ read_body cs b e n h short
    ]

    after_header-whole :
        (cs : List Bytes) (b : Bytes) (e : ℕ)
        → find_header_end b ≡ some e
        → after_header kind ending (read_chunks kind ending cs) b (some e)
          ≡ read_whole (b ++ concat cs)
    after_header-whole cs b e here =
        let long = find_header_end-length b e here in
        bind_ext (expected_size kind ending b e)
          (after_length kind ending (read_chunks kind ending cs) b e)
          (whole_body (b ++ concat cs) e) (λ n. after_length-whole cs b e n long)
        ∙ ap (λ r. r >>= whole_body (b ++ concat cs) e) (expected_size-append b (concat cs) e long)
        ∙ sym (ap (whole_from (b ++ concat cs)) (find_header_end-append b (concat cs) e here))

    pub read_chunks-whole :
        (cs : List Bytes) (b : Bytes)
        → find_header_end b ≡ none
        → HeaderFits (b ++ concat cs) (find_header_end (b ++ concat cs))
        → read_chunks kind ending cs b none ≡ read_whole (b ++ concat cs)
    unfolding read_chunks
    read_chunks-whole [] b absent fits =
        sym (ap read_whole (append-nil b) ∙ ap (whole_from b) absent)
    read_chunks-whole (c ∷ cs) b absent fits =
        let joined = append_assoc b c (concat cs) in
        let fits' : HeaderFits ((b ++ c) ++ concat cs) (find_header_end ((b ++ c) ++ concat cs)) =
          subst (λ t. HeaderFits t (find_header_end t)) (sym joined) fits in
        elim (Option-cases (find_header_end (b ++ c))) [
          | inr (e, here) ↦
              ap (after_header kind ending (read_chunks kind ending cs) (b ++ c)) here
              ∙ after_header-whole cs (b ++ c) e here
              ∙ ap read_whole joined
          | inl still ↦
              let few = few_bytes (b ++ c) (concat cs) _ still refl fits' in
              ap (after_header kind ending (read_chunks kind ending cs) (b ++ c)) still
              ∙ if_false _ _ (le→ltb _ _ few)
              ∙ read_chunks-whole cs (b ++ c) still fits'
              ∙ ap read_whole joined
        ]

length_of_request :
    (bad : Bool) (method path : Bytes) (ls : List Bytes) (b b' : Bytes)
    → (request_if bad method path ls b >>= λ m. parse_content_length m.headers)
      ≡ (request_if bad method path ls b' >>= λ m. parse_content_length m.headers)
length_of_request true method path ls b b' = refl
length_of_request false method path ls b b' = refl

length_of_lines :
    (ls : List Bytes) (b b' : Bytes)
    → (request_from ls b >>= λ m. parse_content_length m.headers)
      ≡ (request_from ls b' >>= λ m. parse_content_length m.headers)
length_of_lines [] b b' = refl
length_of_lines (l ∷ ls) b b' = length_of_request _ _ _ ls b b'

request_kind-IsHeaderOnly : IsHeaderOnly request_kind
unfolding parse_http_request
request_kind-IsHeaderOnly h b b' = length_of_lines (lines h) b b'

-- read_http_request gives the same result however the connection cuts the bytes into chunks: the
-- message whose header ends at the first CR LF CR LF of all the bytes with the body that its
-- Content-Length asks for, or the error that all the bytes together have. The header ends within
-- max_header_bytes, or no header ends and there are at most max_header_bytes of them.
pub read_http_request-concat :
    (ending : Ending) (chunks : List Bytes)
    → HeaderFits (concat chunks) (find_header_end (concat chunks))
    → read_http_request ending chunks ≡ read_whole request_kind ending (concat chunks)
unfolding read_http_request find_header_end
read_http_request-concat ending chunks fits =
    read_chunks-whole request_kind ending request_kind-IsHeaderOnly chunks [] refl fits
