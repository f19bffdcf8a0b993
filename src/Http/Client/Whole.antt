-- ===== src/Http/Client/Whole.antt =====
-- How the bytes of a response are cut into chunks does not matter.
use distributed_layer_infere.Common.{
  ℤ, ◌≡◌, refl, true, false, Bool, List, [], ◌∷◌, ◌>>=◌, Bytes, concat,
}
use distributed_layer_infere.Http.Text.{lines}
use distributed_layer_infere.Http.Message.{parse_content_length}
use distributed_layer_infere.Http.Read.{Ending, find_header_end}
use distributed_layer_infere.Http.Read.Chunks.{
  IsHeaderOnly, HeaderFits, read_whole, read_chunks-whole,
}
use distributed_layer_infere.Http.Client.{
  response_kind, response_if, response_from, parse_http_response, read_http_response,
}

length_of_response :
    (bad : Bool) (status : ℤ × Bytes) (ls : List Bytes) (b b' : Bytes)
    → (response_if bad status ls b >>= λ m. parse_content_length m.headers)
      ≡ (response_if bad status ls b' >>= λ m. parse_content_length m.headers)
length_of_response true status ls b b' = refl
length_of_response false status ls b b' = refl

length_of_lines :
    (ls : List Bytes) (b b' : Bytes)
    → (response_from ls b >>= λ m. parse_content_length m.headers)
      ≡ (response_from ls b' >>= λ m. parse_content_length m.headers)
length_of_lines [] b b' = refl
length_of_lines (l ∷ ls) b b' = length_of_response _ _ ls b b'

response_kind-IsHeaderOnly : IsHeaderOnly response_kind
unfolding parse_http_response
response_kind-IsHeaderOnly h b b' = length_of_lines (lines h) b b'

-- read_http_response gives the same result however the connection cuts the bytes into chunks: the
-- response in all the bytes, with the body cut to its Content-Length; with what there is of the body
-- if the peer closes the connection before that; or the error that all the bytes together have. The
-- header ends within max_header_bytes, or no header ends and there are at most max_header_bytes of
-- them.
pub read_http_response-concat :
    (ending : Ending) (chunks : List Bytes)
    → HeaderFits (concat chunks) (find_header_end (concat chunks))
    → read_http_response ending chunks ≡ read_whole response_kind ending (concat chunks)
unfolding read_http_response find_header_end
read_http_response-concat ending chunks fits =
    read_chunks-whole response_kind ending response_kind-IsHeaderOnly chunks [] refl fits
