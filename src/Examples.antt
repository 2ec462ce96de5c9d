-- ===== src/Examples.antt =====
-- The servlet functions of the example programs, examples/hello_world/main.c and
-- examples/boot/main.c.
pub mod Hello
pub mod Static
use highway.Prelude.{ℕ, Bool, true, false, codes, length, Outcome, ret, ◌>>=◌, if◌then◌else◌}
use highway.Prelude.Int.{pos}
use highway.Text.{string_const, cmp}
use highway.Mimetypes.{application_json, mimetype_text}
use highway.Env.{Env}
use highway.Request.{Request}
use highway.Response.{set_status_code, set_content_length, set_content_type}
use highway.Response.Send.{write_body_raw}
use highway.Servlet.{Exchange, Servlet, Filter}

module _ (env : Env) where
  open env use {Conn}

  -- `hello_world_servlet`
  unfoldable pub hello_world_servlet : Servlet Conn
  hello_world_servlet x = do
    (sized, r) ← set_content_length env (set_status_code x.response (pos 200)).1 (pos 12)
    (wrote, resp, c) ← write_body_raw env r x.conn (codes "Hello World!")
    ret (record x { response = resp; conn = c })

  -- `hello_world_filter`, whose data is not used
  unfoldable pub hello_world_filter : Filter Conn
  hello_world_filter next x = next x

  -- `on_request` of examples/boot/main.c
  unfoldable pub boot_on_request : Servlet Conn
  boot_on_request x = do
    home ← cmp x.request.uri (string_const (codes "/"))
    let json = string_const (codes "{\"name\":\"John Doe\"}")
    let found = (do
      (sized, r1) ←
          set_content_length env (set_status_code x.response (pos 200)).1 (pos json.length)
      (typed, r2) ← set_content_type env r1 (mimetype_text application_json)
      (wrote, resp, c) ← write_body_raw env r2 x.conn json.begin
      ret (record x { response = resp; conn = c }))
    if home then found else ret (record x { response = (set_status_code x.response (pos 404)).1 })
