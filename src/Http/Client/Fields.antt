-- ===== src/Http/Client/Fields.antt =====
-- The request line and the four fields that the client of http_client.cpp writes, as http.cpp reads
-- them.
use distributed_layer_infere.Common.{
  ℕ, suc, ◌≡◌, refl, ap, ◌∙◌, arith, Bool, true, false, ◌||◌, List, [], ◌∷◌, ◌++◌, Result, length,
  Bytes, All, codes, is_empty, is_space, skip_spaces, decimal, to_string, ℤ, pos, negsuc, eqb,
}
use distributed_layer_infere.Http.{Headers, HttpRequest, connection_value}
use distributed_layer_infere.Http.Text.{trim_copy, lower_copy, trim_back, next_word, word_of}
use distributed_layer_infere.Http.Text.Cuts.{HasNoSpace, word_of-append, trim_copy_space}
use distributed_layer_infere.Http.Message.{HttpError, assign, request_of, request_if}
use distributed_layer_infere.Http.Written.{IsLine}
use distributed_layer_infere.Http.Written.Lengths.{decimal-HasNoSpace}
use distributed_layer_infere.Http.Written.Fields.{
  append-IsLine, literal-IsLine, no_space_no_line_end, IsField, fields_read,
}
use distributed_layer_infere.Http.Client.{ParsedUrl}

pub to_string-HasNoSpace : (z : ℤ) → HasNoSpace (to_string z)
unfolding to_string
to_string-HasNoSpace (pos n) = decimal-HasNoSpace n
to_string-HasNoSpace (negsuc n) = (ground arith, decimal-HasNoSpace (suc n))

abbrev pub host_text : ParsedUrl → Bytes
host_text url = url.host ++ (b':' ∷ to_string url.port)

-- The headers as the server has them.
abbrev pub sent_headers : Bool → ParsedUrl → Bytes → Headers
sent_headers keep_alive url body =
    (codes "host", host_text url)
    ∷ (codes "content-type", codes "application/octet-stream")
    ∷ (codes "content-length", decimal (length body))
    ∷ (codes "connection", connection_value keep_alive)
    ∷ []

next_word_behind :
    (x : ℕ) (w : Bytes) (c : ℕ) (rest : Bytes)
    → HasNoSpace (x ∷ w)
    → is_space c ≡ true
    → next_word (32 ∷ ((x ∷ w) ++ (c ∷ rest))) ≡ (x ∷ w, c ∷ rest)
unfolding next_word skip_spaces
next_word_behind x w c rest h k = rw h.0 (word_of-append (x ∷ w) c rest h k)

-- The rest of the request line, behind its method.
abbrev after_method : List Bytes → Bytes → Bytes × Bytes → Result HttpError HttpRequest
after_method ls body (path, after_path) =
    let (version, after_version) = next_word after_path in
    request_if (is_empty path || is_empty version) (codes "POST") path ls body

pub request_line :
    (x : ℕ) (path : Bytes) (ls : List Bytes) (body : Bytes)
    → HasNoSpace (x ∷ path)
    → request_of (codes "POST " ++ (x ∷ path) ++ codes " HTTP/1.1") ls body
      ≡ request_if false (codes "POST") (x ∷ path) ls body
unfolding next_word skip_spaces word_of
request_line x path ls body h =
    let path_word = next_word_behind x path 32 (codes "HTTP/1.1") h refl in
    ap (after_method ls body) path_word ∙ refl

-- The fields that the client writes.
abbrev pub written_fields : Bool → Bytes → Bytes → Headers
written_fields keep_alive host content =
    (codes "Host", host)
    ∷ (codes "Content-Type", codes "application/octet-stream")
    ∷ (codes "Content-Length", content)
    ∷ (codes "Connection", connection_value keep_alive)
    ∷ []

pub connection_value-IsLine :
    (keep_alive : Bool) → IsLine (codes "Connection: " ++ connection_value keep_alive)
connection_value-IsLine true = literal-IsLine (codes "Connection: keep-alive") refl refl refl
connection_value-IsLine false = literal-IsLine (codes "Connection: close") refl refl refl

pub written_fields-IsField :
    (keep_alive : Bool) (host content : Bytes)
    → HasNoSpace host
    → HasNoSpace content
    → All IsField (written_fields keep_alive host content)
written_fields-IsField keep_alive host content h k = (
  (refl, append-IsLine (codes "Host: ") host refl refl refl (no_space_no_line_end host h)),
  (
    (refl, literal-IsLine (codes "Content-Type: application/octet-stream") refl refl refl),
    (
      (
        refl,
        append-IsLine (codes "Content-Length: ") content refl refl refl
            (no_space_no_line_end content k),
      ),
      ((refl, connection_value-IsLine keep_alive), tt),
    ),
  ),
)

pub trim_connection :
    (keep_alive : Bool) → trim_copy (32 ∷ connection_value keep_alive) ≡ connection_value keep_alive
unfolding trim_copy skip_spaces trim_back
trim_connection true = refl
trim_connection false = refl

pub fields_read_sent :
    (keep_alive : Bool) (host content : Bytes)
    → HasNoSpace host
    → HasNoSpace content
    → fields_read (written_fields keep_alive host content) []
      ≡ (codes "host", host)
        ∷ (codes "content-type", codes "application/octet-stream")
        ∷ (codes "content-length", content)
        ∷ (codes "connection", connection_value keep_alive)
        ∷ []
unfolding lower_copy trim_copy skip_spaces trim_back assign eqb
fields_read_sent keep_alive host content h k =
    rw (trim_copy_space host h, trim_copy_space content k, trim_connection keep_alive) refl
