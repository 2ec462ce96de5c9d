-- ===== src/Examples/Static/EndToEnd.antt =====
-- A request that the program of examples/static answers, from the start of the program on.
use highway.Prelude.{
  ℕ, ◌≤◌, ◌<◌, ◌≡◌, refl, sym, ap, ◌∙◌, Bool, true, false, List, [], ◌++◌, All, Bytes, length,
  Option, none, some, ret,
}
use highway.Prelude.Int.{ℤ, pos, ltb_ℤ}
use highway.Number.{uitoc}
use highway.Env.{Env, Laws}
use highway.Request.{Request, request_reset}
use highway.Request.Headers.{read_headers}
use highway.Request.Headers.OneLine.{WellFormed}
use highway.Request.Headers.Fields.{close_of, length_of}
use highway.Request.Headers.Chunk.{IsWord, request_text}
use highway.Request.Headers.RoundTrip.{Holds, read_headers-Holds}
use highway.Servlet.{Exchange, Servlet, dispatch, serve_request}
use highway.Servlet.Answered.{verdict_of, serve_request-Answered}
use highway.FileContent.{Entry, max_path}
use highway.FileContent.Walk.{Listing, files, Opens, Contains}
use highway.Examples.Static.{OpenFile, Cache, static_cache_init, static_on_request}
use highway.Examples.Static.Pages.{space}
use highway.Examples.Static.Found.{Page, page_of, page_for, answer_page}
use highway.Examples.Static.Serves.{pages, Readable, static_cache_init-Serves}
use highway.Examples.Static.Sendable.{Sendable, pages-Sendable}
use highway.Examples.Static.Delivered.{page_headers, asked, respond-Delivered}

module _ (env : Env) (laws : Laws env) where
  open env use {Conn}
  open laws use {sent}

  -- A request without a body that is read, and that the servlet function answers with this page.
  serve_request-Sendable :
      (servlet : Servlet Conn) (x : Exchange Conn) (c0 c1 c2 : Conn) (method uri : Bytes)
      (fields : List (Bytes × Bytes)) (req : Request) (page : Page) (digits : Bytes)
      → let close = close_of true fields in
        read_headers env x.conn (request_reset x.request) ≡ ret (true, req, c0)
        → Holds (request_reset x.request) method uri fields [] req
        → sent c0 ≡ sent x.conn
        → ltb_ℤ (pos 0) (length_of (request_reset x.request).content_length fields) ≡ false
        → servlet (asked req x.response close c0)
          ≡ answer_page env (asked req x.response close c0) page
        → Sendable page
        → uitoc 10 (length page.body) ≡ some digits
        → 3 < env.max_headers_count
        → length (page_headers page.status page.mime digits close) ≤ length x.response.memory.ptr
        → env.send c0 (page_headers page.status page.mime digits close)
          ≡ (some (length (page_headers page.status page.mime digits close)), c1)
        → env.send c1 page.body ≡ (some (length page.body), c2)
        → (x' : Exchange Conn) × (serve_request env none (some servlet) x
            ≡ ret (verdict_of close, x'))
          × (sent x'.conn
              ≡ sent x.conn ++ (page_headers page.status page.mime digits close ++ page.body))
  unfolding request_reset dispatch
  serve_request-Sendable servlet x c0 c1 c2 method uri fields req page digits read holds kept
        no_body answers good spelt few room takes takes' =
      let close = close_of true fields in
      let (x', served, d) =
        respond-Delivered env laws req x.response close c0 c1 c2 page.status page.mime page.body
          digits good.set good.mime_inside good.some_byte spelt few room takes takes' in
      (
        x',
        serve_request-Answered env none (some servlet) x x' req c0 close read
            (ap (λ b. servlet (asked req x.response b c0)) holds.close ∙ answers ∙ served)
            (ap (λ q. ltb_ℤ (pos 0) q.content_length_remaining) d.request
              ∙ ap (ltb_ℤ (pos 0)) holds.remaining
              ∙ no_body)
            d.marked d.nothing_left d.closes,
        d.delivered
            ∙ ap (λ t. t ++ (page_headers page.status page.mime digits close ++ page.body)) kept,
      )

  -- The program caches the files in and under its directory, and then reads a request without a body
  -- that comes in one chunk and answers it with the first file whose path behind the directory's is
  -- the URI, with status 200 and the type of the path, or with status 404 if there is none: the
  -- header block and the bytes, in that order and once, behind what was sent before. The connection is
  -- kept for another request if the request's headers ask for that. The files and the memory are as
  -- in `static_cache_init-Serves`, the request is as in `read_headers-Holds`, the response's memory
  -- has the room, and one send takes the header block and one the bytes.
  pub serve_request-page :
      (realloc : Bytes → ℤ → Option Bytes) (fopen : Bytes → Option OpenFile) (grows : ℕ → Bool)
      (texts : Bytes → Bytes) (malloc : ℕ → Bytes) (opendir : Bytes → Option (List Entry))
      (path root : Bytes) (listing : Listing) (x : Exchange Conn) (c0 c1 c2 : Conn)
      (method uri : Bytes) (fields : List (Bytes × Bytes)) (digits : Bytes)
      → ((n : ℕ) → grows n ≡ true)
      → length (malloc 65536) ≡ 65536
      → length path ≡ max_path
      → Opens opendir root listing
      → Contains opendir root listing
      → All (Readable fopen texts) (files root listing)
      → space (pages root texts (files root listing)) ≤ 65536
      → env.max_header_size ≤ length x.request.memory.ptr
      → IsWord method
      → IsWord uri
      → All WellFormed fields
      → length fields ≤ env.max_headers_count
      → length (request_text method uri fields []) < env.max_header_size
      → env.recv x.conn env.max_header_size ≡ (some (request_text method uri fields []), c0)
      → let close = close_of true fields in
        let page = page_for uri (page_of uri (pages root texts (files root listing))) in
        let head = page_headers page.status page.mime digits close in
        ltb_ℤ (pos 0) (length_of (request_reset x.request).content_length fields) ≡ false
        → uitoc 10 (length page.body) ≡ some digits
        → 3 < env.max_headers_count
        → length head ≤ length x.response.memory.ptr
        → env.send c0 head ≡ (some (length head), c1)
        → env.send c1 page.body ≡ (some (length page.body), c2)
        → (cache : Cache) × (x' : Exchange Conn) × (static_cache_init realloc fopen grows malloc
              opendir path root
            ≡ ret (some cache))
          × (serve_request env none (some (static_on_request env cache)) x
              ≡ ret (verdict_of close, x'))
          × (sent x'.conn ≡ sent x.conn ++ (head ++ page.body))
  unfolding request_reset
  serve_request-page realloc fopen grows texts malloc opendir path root listing x c0 c1 c2 method
        uri fields digits grow given size opens contains rs fits room m u well few short r no_body
        spelt few' room' takes takes' =
      let close = close_of true fields in
      let ps = pages root texts (files root listing) in
      let (req, read, holds) =
        read_headers-Holds env x.conn c0 (request_reset x.request) method uri fields [] refl room m
          u well few short r in
      let y = asked req x.response close c0 in
      let (cache, kept, answers) =
        static_cache_init-Serves realloc fopen grows grow texts env malloc opendir path root listing
          y given size opens contains rs fits holds.uri_inside in
      let (x', served, delivered) =
        serve_request-Sendable (static_on_request env cache) x c0 c1 c2 method uri fields req
          (page_for uri (page_of uri ps)) digits read holds
          (ap (λ q. sent q.1) (sym r) ∙ laws.recv_keeps x.conn env.max_header_size) no_body
          (answers ∙ ap (λ t. answer_page env y (page_for t (page_of t ps))) holds.uri_read)
          (pages-Sendable fopen texts root uri (files root listing) rs) spelt few' room' takes
          takes' in
      (cache, x', kept, served, delivered)
