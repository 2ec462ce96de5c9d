-- ===== src/Tests/Static.antt =====
-- A directory whose files are served.
use highway.Text.{isspace}
use highway.Text.Suffix.{suffix_text}
use highway.Text.Compare.{same_text}
use highway.Mimetypes.{mimetype_text}
use highway.Mimetypes.Table.{type_of_name}
use highway.Request.{request_reset}
use highway.Request.Headers.AddHeader.{close_after, length_after}
use highway.Request.Headers.Fields.{close_of, length_of}
use highway.Request.Headers.Chunk.{IsWord, request_text}
use highway.Servlet.{read_retry, serve_request}
use highway.Examples.Static.Serves.{Readable}
use highway.Examples.Static.EndToEnd.{serve_request-page}
use highway.FileContent.Walk.{Contains}
use highway.Tests.Hello.{keep_alive, keep_alive-WellFormed, verb-IsWord}
use highway.Prelude.{
  All, ◌∷◌, ℕ, zero, suc, ◌≡◌, refl, true, false, [], ◌++◌, Bytes, codes, length, Option, none,
  some, ret, arith,
}
use highway.Prelude.Int.{pos}
use highway.Text.{string_const}
use highway.Number.{uitoc}
use highway.Request.{request_init}
use highway.Response.{response_init}
use highway.Servlet.{Exchange}
use highway.FileContent.Walk.{files}
use highway.Examples.Static.{OpenFile, Cache, static_cache_init, static_on_request}
use highway.Examples.Static.Found.{answer_page, page_for, page_of}
use highway.Examples.Static.Serves.{pages, static_cache_init-Serves}
use highway.Examples.Static.Delivered.{page_headers}
use highway.Prelude.{fault}
use highway.Examples.Static.{static_cache_add}
use highway.Examples.Static.Spelled.{file_of}
use highway.Examples.Static.Overrun.{static_cache_add-overruns}
use highway.Tests.Line.{Line, line_env, line_laws}
use highway.Tests.Requests.{zeros}
use highway.Tests.Files.{tree, list_tree, tree-Opens, inner_files-Opens, d-IsName}

length-zeros : (n : ℕ) → length (zeros n) ≡ n
length-zeros zero = refl
length-zeros (suc n) = omega (arith, length-zeros n)

abbrev texts : Bytes → Bytes
texts path = codes "text of " ++ path

abbrev open_file : Bytes → Option OpenFile
open_file path = some (record { content = texts path; readable = true })

tree-Contains : Contains list_tree (codes "r") tree
tree-Contains = (
  omega arith,
  (omega arith, (d-IsName, inner_files-Opens, (omega arith, (omega arith, tt)), (omega arith, tt))),
)

files-Readable : All (Readable open_file texts) (files (codes "r") tree)
files-Readable = (
  record { no_zero = ground arith; opens = refl; some_byte = omega arith },
  (
    record { no_zero = ground arith; opens = refl; some_byte = omega arith },
    (record { no_zero = ground arith; opens = refl; some_byte = omega arith }, tt),
  ),
)

abbrev asking : Exchange Line
asking = record {
  request = record (request_init []) { uri = string_const (codes "/d/b") };
  response = response_init [];
  conn = record { quotas = []; taken = []; inbox = [] };
}

static_cache_init-Serves_example :
    (cache : Cache) × (static_cache_init
        (λ block n. none)
        open_file
        (λ n. true)
        zeros
        list_tree
        (zeros 1024)
        (codes "r")
      ≡ ret (some cache))
    × (static_on_request line_env cache asking
        ≡ answer_page line_env asking (
            page_for
              (codes "/d/b")
              (page_of (codes "/d/b") (pages (codes "r") texts (files (codes "r") tree)))))
unfolding request_init
static_cache_init-Serves_example =
    static_cache_init-Serves (λ block n. none) open_file (λ n. true) (λ n. refl) texts line_env
      zeros list_tree (zeros 1024) (codes "r") tree asking (length-zeros 65536) refl tree-Opens
      tree-Contains files-Readable (omega arith) (omega arith)

-- A peer that asks for a file.
abbrev calling : Exchange Line
calling = record {
  request = request_init (zeros 64);
  response = response_init (zeros 200);
  conn = record {
    quotas = [];
    taken = codes "before";
    inbox = request_text (codes "GET") (codes "/d/b") (keep_alive ∷ []) [];
  };
}

abbrev file_headers : Bytes
file_headers =
    page_headers (pos 200) (string_const (codes "application/octet-stream")) (codes "13") false

file-IsWord : IsWord (codes "/d/b")
unfolding isspace
file-IsWord = record { no_space = ground arith; no_newline = ground arith; ends = refl }

serve_request-page_example :
    (cache : Cache) × (x' : Exchange Line) × (static_cache_init
        (λ block n. none)
        open_file
        (λ n. true)
        zeros
        list_tree
        (zeros 1024)
        (codes "r")
      ≡ ret (some cache))
    × (serve_request line_env none (some (static_on_request line_env cache)) calling
        ≡ ret (read_retry, x'))
    × (x'.conn.taken ≡ codes "before" ++ (file_headers ++ codes "text of r/d/b"))
unfolding same_text request_reset request_init response_init line_laws length_of close_of
    length_after close_after page_of type_of_name mimetype_text uitoc suffix_text
serve_request-page_example =
    serve_request-page line_env line_laws (λ block n. none) open_file (λ n. true) texts zeros
      list_tree (zeros 1024) (codes "r") tree calling (record (calling.conn) { inbox = [] })
      (record (calling.conn) { inbox = []; taken = codes "before" ++ file_headers })
      (record (calling.conn) {
        inbox = [];
        taken = codes "before" ++ (file_headers ++ codes "text of r/d/b");
      })
      (codes "GET") (codes "/d/b") (keep_alive ∷ []) (codes "13") (λ n. refl) (length-zeros 65536)
      refl tree-Opens tree-Contains files-Readable (omega arith) (omega arith) verb-IsWord
      file-IsWord (keep_alive-WellFormed, tt) (omega arith) (omega arith) refl refl refl
      (omega arith) (omega arith) refl refl

-- A memory of eight bytes.
abbrev small : Cache
small = record {
  base_dir = string_const (codes "r");
  memory = record { ptr = zeros 8; pos = 0; resize_bytes = pos 8 };
  contents = [];
  room = 64;
}

static_cache_add-overruns_example :
    static_cache_add (λ block n. none) open_file (λ n. true) small (file_of (codes "r/a")) ≡ fault
static_cache_add-overruns_example =
    static_cache_add-overruns (λ block n. none) open_file (λ n. true) (codes "r") 8 small []
      (codes "/a") (texts (codes "r/a"))
      (record {
        dir = refl;
        capacity = refl;
        used = refl;
        has = tt;
        fits = omega arith;
        steps = refl;
      })
      (omega arith) (ground arith) refl (omega arith) (omega arith)
