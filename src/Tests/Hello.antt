-- ===== src/Tests/Hello.antt =====
-- A request that is answered with a greeting.
use highway.Prelude.{◌≡◌, refl, false, [], ◌∷◌, ◌++◌, Bytes, codes, some, ret, arith, inl}
use highway.Text.{isspace}
use highway.Text.Compare.{same_text}
use highway.Request.{request_init, request_reset}
use highway.Request.Headers.OneLine.{WellFormed}
use highway.Request.Headers.AddHeader.{close_after, length_after}
use highway.Request.Headers.Fields.{close_of, length_of}
use highway.Request.Headers.Chunk.{IsWord, request_text}
use highway.Response.{response_init}
use highway.Servlet.{Exchange, read_retry, serve_request}
use highway.Examples.{hello_world_servlet, hello_world_filter}
use highway.Examples.Hello.{hello_headers, serve_request-hello}
use highway.Tests.Line.{Line, line_env, line_laws}
use highway.Tests.Requests.{zeros}

abbrev pub keep_alive : Bytes × Bytes
keep_alive = (codes "Connection", codes "keep-alive")

abbrev asking : Exchange Line
asking = record {
  request = request_init (zeros 64);
  response = response_init (zeros 100);
  conn = record {
    quotas = [];
    taken = codes "before";
    inbox = request_text (codes "GET") (codes "/") (keep_alive ∷ []) [];
  };
}

pub keep_alive-WellFormed : WellFormed keep_alive
unfolding isspace same_text
keep_alive-WellFormed = record {
  name_no_colon = ground arith;
  name_no_newline = ground arith;
  name_starts = refl;
  name_ends = refl;
  text_no_newline = ground arith;
  text_starts = refl;
  text_ends = refl;
  length_fits = inl refl;
}

pub verb-IsWord : IsWord (codes "GET")
unfolding isspace
verb-IsWord = record { no_space = ground arith; no_newline = ground arith; ends = refl }

root-IsWord : IsWord (codes "/")
unfolding isspace
root-IsWord = record { no_space = ground arith; no_newline = ground arith; ends = refl }

serve_request-hello_example :
    (x' : Exchange Line) × (serve_request line_env
        (some (hello_world_filter line_env ∷ []))
        (some (hello_world_servlet line_env))
        asking
      ≡ ret (read_retry, x'))
    × (x'.conn.taken ≡ codes "before" ++ (hello_headers false ++ codes "Hello World!"))
unfolding same_text request_reset request_init response_init line_laws length_of close_of
    length_after close_after
serve_request-hello_example =
    serve_request-hello line_env line_laws asking (record (asking.conn) { inbox = [] })
      (record (asking.conn) { inbox = []; taken = codes "before" ++ hello_headers false })
      (record (asking.conn) {
        inbox = [];
        taken = codes "before" ++ (hello_headers false ++ codes "Hello World!");
      })
      (codes "GET") (codes "/") (keep_alive ∷ []) (omega arith) verb-IsWord root-IsWord
      (keep_alive-WellFormed, tt) (omega arith) (omega arith) refl refl (omega arith) (omega arith)
      refl refl
