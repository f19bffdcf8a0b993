-- ===== src/Http/Written.antt =====
-- Messages as they are written, for the readers: lines that end in CR LF, an empty line, and a body.
pub mod Lengths
pub mod Fields
use distributed_layer_infere.Common.{
  ℕ, zero, suc, ◌+◌, ◌-◌, ◌≤◌, ◌<◌, ◌≡◌, ◌≢◌, refl, sym, ap, ◌∙◌, arith, Bool, true, false,
  if◌then◌else◌, if_true, leb, le→ltb, ◌==◌, Option, none, some, List, [], ◌∷◌, ◌++◌, Result, ok,
  err, ◌>>=◌, length, length-append, take, drop, take_front, take_all, drop_front, drop-drop_lem,
  Bytes, All, is_empty, starts_with,
}
use mathlib.Core.Path.{subst}
use mathlib.Core.List.{append_assoc}
use distributed_layer_infere.Http.{Headers}
use distributed_layer_infere.Http.Text.{crlf, ended_lines, lines, onto_first, without_cr, cut_at}
use distributed_layer_infere.Http.Text.Cuts.{HasNo, All-append}
use distributed_layer_infere.Http.Message.{
  HttpError, max_header_bytes, header_lines, parse_content_length, assigned,
}
use distributed_layer_infere.Http.Read.{
  Kind, Ending, blank_line, one_further, find_header_end, cut_message, expected_size, has_body,
}
use distributed_layer_infere.Http.Read.Chunks.{HeaderFits, read_whole, whole_from, whole_body}

-- A line that is not empty and has no CR or LF.
abbrev pub IsLine : Bytes → Type 0
IsLine l = (is_empty l ≡ false) × HasNo 13 l × HasNo 10 l

abbrev pub joined : Bytes → List Bytes → Bytes
joined l [] = l
joined l (m ∷ ms) = l ++ (13 ∷ 10 ∷ joined m ms)

abbrev pub written : Bytes → List Bytes → Bytes → Bytes
written l ls body = joined l ls ++ (blank_line ++ body)

pub ended_lines-written :
    (l : Bytes) (ls : List Bytes) (body : Bytes)
    → ended_lines (l ∷ ls) ++ (crlf ++ body) ≡ written l ls body
ended_lines-written l [] body = append_assoc l crlf (crlf ++ body)
ended_lines-written l (m ∷ ms) body =
    append_assoc l (crlf ++ ended_lines (m ∷ ms)) (crlf ++ body)
    ∙ ap (λ t. l ++ (crlf ++ t)) (ended_lines-written m ms body)
    ∙ sym (append_assoc l (crlf ++ joined m ms) (blank_line ++ body))

end_behind :
    (l s : Bytes) (e : ℕ)
    → HasNo 13 l
    → find_header_end s ≡ some e
    → find_header_end (l ++ s) ≡ some (length l + e)
unfolding find_header_end starts_with
end_behind [] s e free h = h ∙ ap some (omega arith)
end_behind (x ∷ l) s e free h = ground (arith, end_behind l s e free.1 h)

no_start_at_crlf : (m s : Bytes) → IsLine m → starts_with (13 ∷ 10 ∷ (m ++ s)) blank_line ≡ false
unfolding starts_with
no_start_at_crlf [] s h = absurd (cc)
no_start_at_crlf (x ∷ m) s h = ground arith

end_behind_crlf :
    (m s : Bytes) (e : ℕ)
    → IsLine m
    → find_header_end (m ++ s) ≡ some e
    → find_header_end (13 ∷ 10 ∷ (m ++ s)) ≡ some (2 + e)
unfolding find_header_end starts_with
end_behind_crlf m s e h k = rw (no_start_at_crlf m s h) (ground (arith, k))

-- What follows the first line.
abbrev behind_first : List Bytes → Bytes → Bytes
behind_first [] body = blank_line ++ body
behind_first (m ∷ ms) body = 13 ∷ 10 ∷ written m ms body

written-first :
    (l : Bytes) (ls : List Bytes) (body : Bytes) → written l ls body ≡ l ++ behind_first ls body
written-first l [] body = refl
written-first l (m ∷ ms) body = append_assoc l (13 ∷ 10 ∷ joined m ms) (blank_line ++ body)

ends_here : (body : Bytes) → find_header_end (blank_line ++ body) ≡ some 0
unfolding find_header_end starts_with
ends_here body = refl

-- A written header ends where it was written to end.
pub find_header_end-written :
    (l : Bytes) (ls : List Bytes) (body : Bytes)
    → IsLine l
    → All IsLine ls
    → find_header_end (written l ls body) ≡ some (length (joined l ls))
find_header_end-written l [] body h hs =
    end_behind l (blank_line ++ body) 0 h.1 (ends_here body) ∙ ap some (omega arith)
find_header_end-written l (m ∷ ms) body h hs =
    let first = written-first m ms body in
    let later = ap find_header_end (sym first) ∙ find_header_end-written m ms body hs.0 hs.1 in
    let from_crlf =
      ap (λ t. find_header_end (13 ∷ 10 ∷ t)) first
      ∙ end_behind_crlf m (behind_first ms body) (length (joined m ms)) hs.0 later in
    ap find_header_end (written-first l (m ∷ ms) body)
    ∙ end_behind l (13 ∷ 10 ∷ written m ms body) (2 + length (joined m ms)) h.1 from_crlf
    ∙ ap some (omega (arith, length-append l (13 ∷ 10 ∷ joined m ms)))

-- A written header that is short enough fits.
pub written-HeaderFits :
    (l : Bytes) (ls : List Bytes) (body : Bytes)
    → IsLine l
    → All IsLine ls
    → length (ended_lines (l ∷ ls)) < max_header_bytes
    → HeaderFits (written l ls body) (find_header_end (written l ls body))
written-HeaderFits l ls body h hs short =
    let fits : HeaderFits (written l ls body) (some (length (joined l ls))) = omega (
      arith,
      ap length (ended_lines-written l ls []),
      length-append (ended_lines (l ∷ ls)) (crlf ++ []),
      length-append (joined l ls) blank_line,
    ) in
    subst (HeaderFits (written l ls body)) (sym (find_header_end-written l ls body h hs)) fits

line_behind : (l s : Bytes) → HasNo 10 l → lines (l ++ (10 ∷ s)) ≡ l ∷ lines s
unfolding lines
line_behind [] s h = refl
line_behind (x ∷ l) s h = ground (arith, line_behind l s h.1)

last_line : (l : Bytes) → IsLine l → lines l ≡ l ∷ []
unfolding lines
last_line [] h = absurd (cc)
last_line (x ∷ []) h = ground arith
last_line (x ∷ y ∷ l) h = ground (arith, last_line (y ∷ l) (refl, h.1.1, h.2.1))

pub without_cr-append : (l : Bytes) → without_cr (l ++ (13 ∷ [])) ≡ l
unfolding without_cr
without_cr-append [] = refl
without_cr-append (x ∷ []) = refl
without_cr-append (x ∷ y ∷ l) = ap (λ t. x ∷ t) (without_cr-append (y ∷ l))

pub without_cr_stays : (l : Bytes) → HasNo 13 l → without_cr l ≡ l
unfolding without_cr
without_cr_stays [] h = refl
without_cr_stays (x ∷ []) h = ground arith
without_cr_stays (x ∷ y ∷ l) h = ap (λ t. x ∷ t) (without_cr_stays (y ∷ l) h.1)

header_lines-cons :
    (l l' : Bytes) (ls ls' : List Bytes) (headers : Headers)
    → without_cr l ≡ without_cr l'
    → ((hs : Headers) → header_lines ls hs ≡ header_lines ls' hs)
    → header_lines (l ∷ ls) headers ≡ header_lines (l' ∷ ls') headers
unfolding header_lines
header_lines-cons l l' ls ls' headers e h =
    ap (λ t. if is_empty t then headers else header_lines ls (assigned headers (cut_at b':' t))) e
    ∙ ap (λ t. if is_empty (without_cr l') then headers else t)
        (h (assigned headers (cut_at b':' (without_cr l'))))

-- Every line but the last one has its CR.
abbrev pub with_cr : Bytes → List Bytes → List Bytes
with_cr l [] = l ∷ []
with_cr l (m ∷ ms) = (l ++ (13 ∷ [])) ∷ with_cr m ms

pub lines-joined :
    (l : Bytes) (ls : List Bytes) → IsLine l → All IsLine ls → lines (joined l ls) ≡ with_cr l ls
lines-joined l [] h hs = last_line l h
lines-joined l (m ∷ ms) h hs =
    let free : HasNo 10 (l ++ (13 ∷ [])) =
      All-append (λ c. c ≢ 10) l (13 ∷ []) h.2 (omega arith, tt) in
    ap lines (sym (append_assoc l (13 ∷ []) (10 ∷ joined m ms)))
    ∙ line_behind (l ++ (13 ∷ [])) (joined m ms) free
    ∙ ap (λ t. (l ++ (13 ∷ [])) ∷ t) (lines-joined m ms hs.0 hs.1)

-- The header lines are read as they are.
pub header_lines-with_cr :
    (l : Bytes) (ls : List Bytes) (headers : Headers)
    → IsLine l
    → All IsLine ls
    → header_lines (with_cr l ls) headers ≡ header_lines (l ∷ ls) headers
header_lines-with_cr l [] headers h hs = refl
header_lines-with_cr l (m ∷ ms) headers h hs =
    header_lines-cons (l ++ (13 ∷ [])) l (with_cr m ms) (m ∷ ms) headers
      (without_cr-append l ∙ sym (without_cr_stays l h.1))
      (λ k. header_lines-with_cr m ms k hs.0 hs.1)

-- A written message of a kind is read whole as its header with its body, if the length in the header
-- is the length of the body.
module _ {M : Type 0} (kind : Kind M) (ending : Ending) where
  pub read_whole-written :
      (l : Bytes) (ls : List Bytes) (body : Bytes)
      → IsLine l
      → All IsLine ls
      → (kind.parse (joined l ls) body >>= λ m. parse_content_length (kind.headers_of m))
        ≡ ok (length body)
      → read_whole kind ending (written l ls body) ≡ kind.parse (joined l ls) body
  read_whole-written l ls body h hs size =
      let text = joined l ls in
      let bytes = written l ls body in
      let e = length text in
      let front : take e bytes ≡ text = take_front text (blank_line ++ body) in
      let back : drop (e + 4) bytes ≡ body =
        sym (drop-drop_lem e 4 (e + 4) bytes refl)
        ∙ ap (drop 4) (drop_front text (blank_line ++ body)) in
      let sized : expected_size kind ending bytes e ≡ ok (length body) =
        ap
          (λ t. kind.parse t (drop (e + 4) bytes) >>= λ m. parse_content_length (kind.headers_of m))
          front
        ∙ ap (λ t. kind.parse text t >>= λ m. parse_content_length (kind.headers_of m)) back
        ∙ size in
      let full : has_body kind ending bytes e (length body) ≡ true =
        ground (arith, length-append text (blank_line ++ body)) in
      ap (whole_from kind ending bytes) (find_header_end-written l ls body h hs)
      ∙ ap (λ r. r >>= whole_body kind ending bytes e) sized
      ∙ if_true _ _ full
      ∙ ap (λ t. kind.parse t (take (length body) (drop (e + 4) bytes))) front
      ∙ ap (λ t. kind.parse text (take (length body) t)) back
      ∙ ap (kind.parse text) (take_all (length body) body (omega arith))
