-- ===== src/Tests/Parsed.antt =====
-- A request that is read into its fields.
use highway.Prelude.{[], ◌∷◌, ◌≡◌, refl, inl, inr, Bytes, codes, ret, true, arith}
use highway.Text.{isspace}
use highway.Number.{isdigit}
use highway.Text.Compare.{same_text}
use highway.Request.{Request, request_init}
use highway.Request.Headers.{read_headers}
use highway.Request.Headers.OneLine.{WellFormed}
use highway.Request.Headers.Chunk.{IsWord, request_text}
use highway.Request.Headers.RoundTrip.{Holds, read_headers-Holds}
use highway.Tests.Line.{Line, line_env}
use highway.Tests.Requests.{zeros}

abbrev host : Bytes × Bytes
host = (codes "Host", codes "a")

abbrev two_long : Bytes × Bytes
two_long = (codes "Content-Length", codes "2")

abbrev incoming : Line
incoming = record {
  quotas = [];
  taken = [];
  inbox = request_text (codes "GET") (codes "/") (host ∷ two_long ∷ []) (codes "ok");
}

host-WellFormed : WellFormed host
unfolding isspace same_text
host-WellFormed = record {
  name_no_colon = ground arith;
  name_no_newline = ground arith;
  name_starts = refl;
  name_ends = refl;
  text_no_newline = ground arith;
  text_starts = refl;
  text_ends = refl;
  length_fits = inl refl;
}

two_long-WellFormed : WellFormed two_long
unfolding isspace same_text isdigit
two_long-WellFormed = record {
  name_no_colon = ground arith;
  name_no_newline = ground arith;
  name_starts = refl;
  name_ends = refl;
  text_no_newline = ground arith;
  text_starts = refl;
  text_ends = refl;
  length_fits = inr ((refl, tt), ground arith);
}

get-IsWord : IsWord (codes "GET")
unfolding isspace
get-IsWord = record { no_space = ground arith; no_newline = ground arith; ends = refl }

slash-IsWord : IsWord (codes "/")
unfolding isspace
slash-IsWord = record { no_space = ground arith; no_newline = ground arith; ends = refl }

read_headers-Holds_example :
    (req' : Request) × (read_headers line_env incoming (request_init (zeros 64))
      ≡ ret (true, req', record incoming { inbox = [] }))
    × Holds
        (request_init (zeros 64))
        (codes "GET")
        (codes "/")
        (host ∷ two_long ∷ [])
        (codes "ok")
        req'
unfolding request_init
read_headers-Holds_example =
    read_headers-Holds line_env incoming (record incoming { inbox = [] }) (request_init (zeros 64))
      (codes "GET") (codes "/") (host ∷ two_long ∷ []) (codes "ok") refl (omega arith) get-IsWord
      slash-IsWord (host-WellFormed, (two_long-WellFormed, tt)) (omega arith) (omega arith) refl
