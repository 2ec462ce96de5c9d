-- ===== src/Response/Wire.antt =====
-- What the response's memory spells as headers are added.
pub mod Pair
pub mod AddHeader
use mathlib.Core.Path.{subst}
use highway.Prelude.{
  if_false, if_true, >>=-ret, ℕ, ◌+◌, ◌-◌, ◌≤◌, ◌<◌, ◌≡◌, ◌≢◌, refl, sym, ap, ◌∙◌, ◌⊎◌, inl, inr,
  Bool, true, false, List, [], ◌∷◌, ◌++◌, append-nil, append_assoc, Bytes, All, length, take, drop,
  length-append, length-take, take-append-drop, codes, Option, none, some, Outcome, ret, ◌>>=◌,
  arith, ap_at, leb, le→leb, lt→leb, ◌==◌, if◌then◌else◌, Bool-cases,
}
use highway.Prelude.Int.{pos, negsuc, eqb_ℤ, ℤ}
use highway.Text.{HiwString, IsView, bytes, cmp}
use highway.Text.Compare.{Decides, cmp-Decides}
use highway.Memory
use highway.Memory.{Memory, mempy}
use highway.Memory.Overrun.{get_room}
use highway.Memory.Write.{
  mempy-appended, overwrite, mempy-overwrite, take-overwrite, length-overwrite,
}
use highway.Env.{Env}
use highway.Request.{Header}
use highway.Response.{
  write_value, write_pair, write_line, Response, response_error, or_error, load, status_text,
  already_added, write_raw, write_status_code, write_status_once, write_header,
}

-- What is written lies in the block, and is `text`.
pub record Spells (resp : Response) (text : Bytes) : Type 0 where
  pub inside : resp.memory.pos ≤ length resp.memory.ptr
  pub spelled : take resp.memory.pos resp.memory.ptr ≡ text

-- What a write leaves as it is: the room, and the flags and the status.
pub record Same (after before : Response) : Type 0 where
  pub capacity : length after.memory.ptr ≡ length before.memory.ptr
  pub sent : after.headers_sent ≡ before.headers_sent
  pub status : after.status_code ≡ before.status_code
  pub close : after.connection_close ≡ before.connection_close
  pub close_set : after.connection_set ≡ before.connection_set
  pub length_set : after.content_length_set ≡ before.content_length_set
  pub total : after.content_length ≡ before.content_length
  pub left : after.content_bytes_left ≡ before.content_bytes_left

pub Same-trans : (a b c : Response) → Same a b → Same b c → Same a c
Same-trans a b c s t = record {
  capacity = s.capacity ∙ t.capacity;
  sent = s.sent ∙ t.sent;
  status = s.status ∙ t.status;
  close = s.close ∙ t.close;
  close_set = s.close_set ∙ t.close_set;
  length_set = s.length_set ∙ t.length_set;
  total = s.total ∙ t.total;
  left = s.left ∙ t.left;
}

-- The response with `src` behind what is written.
abbrev appended : Response → Bytes → Response
appended resp src = record resp {
  memory = record (resp.memory) {
    ptr = overwrite resp.memory.ptr resp.memory.pos src;
    pos = resp.memory.pos + length src;
  };
}

appended-Spells :
    (resp : Response) (src text : Bytes)
    → Spells resp text
    → resp.memory.pos + length src ≤ length resp.memory.ptr
    → Spells (appended resp src) (text ++ src)
appended-Spells resp src text h room = record {
  inside = omega (arith, length-overwrite resp.memory.ptr resp.memory.pos src room);
  spelled = take-overwrite resp.memory.ptr resp.memory.pos src room ∙ ap (λ t. t ++ src) h.spelled;
}

-- The status line, unless it is written.
unfoldable pub status_line : Response → Bytes
status_line resp =
    if resp.status_code_set then [] else codes "HTTP/1.1 " ++ status_text resp.status_code

module _ (env : Env) where
  write_raw-appended :
      (resp : Response) (src : Bytes)
      → resp.memory.pos + length src ≤ length resp.memory.ptr
      → write_raw env resp src ≡ ret (true, appended resp src)
  unfolding write_raw
  write_raw-appended resp src room =
      rw (get_room env.realloc resp.memory (length src) room)
        (rw (mempy-appended src resp.memory.ptr resp.memory.pos room))

  -- A call that writes what is behind `resp`'s text in `text`, and leaves the rest as it is.
  pub record Wrote (call : Outcome (Bool × Response)) (resp : Response) (text : Bytes)
      : Type 0 where
    pub after : Response
    pub answer : call ≡ ret (true, after)
    pub spells : Spells after text
    pub capacity : length after.memory.ptr ≡ length resp.memory.ptr
    pub headers : after.headers ≡ resp.headers
    pub status : after.status_code ≡ resp.status_code
    pub status_set : after.status_code_set ≡ resp.status_code_set
    pub same : Same after resp

  pub length-Spells :
      (resp : Response) (text : Bytes) → Spells resp text → resp.memory.pos ≡ length text
  length-Spells resp text h =
      let size : length (take resp.memory.pos resp.memory.ptr) ≡ length text =
        ap length h.spelled in
      omega (arith, size, h.inside, length-take resp.memory.pos resp.memory.ptr)

  pub write_raw-Wrote :
      (resp : Response) (src text : Bytes)
      → Spells resp text
      → length (text ++ src) ≤ length resp.memory.ptr
      → Wrote (write_raw env resp src) resp (text ++ src)
  write_raw-Wrote resp src text h room =
      let fits : resp.memory.pos + length src ≤ length resp.memory.ptr =
        omega (arith, length-Spells resp text h, length-append text src) in
      record {
        after = appended resp src;
        answer = write_raw-appended resp src fits;
        spells = appended-Spells resp src text h fits;
        capacity = length-overwrite resp.memory.ptr resp.memory.pos src fits;
        headers = refl;
        status = refl;
        status_set = refl;
        same = record {
          capacity = length-overwrite resp.memory.ptr resp.memory.pos src fits;
          sent = refl;
          status = refl;
          close = refl;
          close_set = refl;
          length_set = refl;
          total = refl;
          left = refl;
        };
      }

  -- One write behind another.
  pub or_error-Wrote :
      (call : Outcome (Bool × Response)) (resp : Response)
      (k : Response → Outcome (Bool × Response)) (text text' : Bytes) (first : Wrote call resp text)
      → Wrote (k first.after) first.after text'
      → Wrote (or_error call k) resp text'
  or_error-Wrote call resp k text text' first second = record {
    after = second.after;
    answer = >>=-ret call _ (true, first.after) first.answer ∙ second.answer;
    spells = second.spells;
    capacity = second.capacity ∙ first.capacity;
    headers = second.headers ∙ first.headers;
    status = second.status ∙ first.status;
    status_set = second.status_set ∙ first.status_set;
    same = Same-trans second.after first.after resp second.same first.same;
  }

  -- The text of what is written, in another form.
  retext :
      (call : Outcome (Bool × Response)) (resp : Response) (text text' : Bytes)
      → text ≡ text'
      → Wrote call resp text
      → Wrote call resp text'
  retext call resp text text' e w = subst (Wrote call resp) e w

  write_status_code-Wrote :
      (resp : Response) (text : Bytes)
      → Spells resp text
      → length (text ++ codes "HTTP/1.1 " ++ status_text resp.status_code) ≤ length resp.memory.ptr
      → Wrote
          (write_status_code env resp)
          resp
          (text ++ codes "HTTP/1.1 " ++ status_text resp.status_code)
  unfolding write_status_code
  write_status_code-Wrote resp text h room =
      let first =
        write_raw-Wrote resp (codes "HTTP/1.1 ") text h (
          omega
            (arith, length-append (text ++ codes "HTTP/1.1 ") (status_text resp.status_code))) in
      let spelt : text ++ codes "HTTP/1.1 " ++ status_text first.after.status_code
          ≡ text ++ codes "HTTP/1.1 " ++ status_text resp.status_code =
        ap (λ z. text ++ codes "HTTP/1.1 " ++ status_text z) first.status in
      or_error-Wrote _ resp (λ r. write_raw env r (status_text r.status_code))
        (text ++ codes "HTTP/1.1 ") _ first
        (retext _ first.after _ _ spelt (
          write_raw-Wrote first.after (status_text first.after.status_code)
            (text ++ codes "HTTP/1.1 ") first.spells
            (omega (arith, ap length spelt, first.capacity))))

  -- The status line is written once.
  pub record StatusWritten (resp : Response) (text : Bytes) : Type 0 where
    pub after : Response
    pub answer : write_status_once env resp ≡ ret (true, after)
    pub spells : Spells after (text ++ status_line resp)
    pub capacity : length after.memory.ptr ≡ length resp.memory.ptr
    pub headers : after.headers ≡ resp.headers
    pub status_set : after.status_code_set ≡ true
    pub same : Same after resp

  pub write_status_once-StatusWritten :
      (resp : Response) (text : Bytes)
      → Spells resp text
      → length (text ++ status_line resp) ≤ length resp.memory.ptr
      → StatusWritten resp text
  unfolding write_status_once status_line
  write_status_once-StatusWritten resp text h room = elim (Bool-cases resp.status_code_set) [
    | inl t ↦
        let none_added : status_line resp ≡ [] = if_true resp.status_code_set _ _ t in
        record {
          after = resp;
          answer = if_true resp.status_code_set _ _ t;
          spells =
              subst (Spells resp) (sym (append-nil text) ∙ ap (λ z. text ++ z) (sym none_added)) h;
          capacity = refl;
          headers = refl;
          status_set = t;
          same = record {
            capacity = refl;
            sent = refl;
            status = refl;
            close = refl;
            close_set = refl;
            length_set = refl;
            total = refl;
            left = refl;
          };
        }
    | inr t ↦
        let all_added : text ++ status_line resp
            ≡ text ++ codes "HTTP/1.1 " ++ status_text resp.status_code =
          ap (λ z. text ++ z) (if_false resp.status_code_set _ _ t)
          ∙ sym (append_assoc text (codes "HTTP/1.1 ") (status_text resp.status_code)) in
        let w = write_status_code-Wrote resp text h (omega (arith, ap length all_added)) in
        record {
          after = record (w.after) { status_code_set = true };
          answer = if_false resp.status_code_set _ _ t ∙ >>=-ret _ _ (true, w.after) w.answer;
          spells = record { inside = w.spells.inside; spelled = w.spells.spelled ∙ sym all_added };
          capacity = w.capacity;
          headers = w.headers;
          status_set = refl;
          same = record {
            capacity = w.same.capacity;
            sent = w.same.sent;
            status = w.same.status;
            close = w.same.close;
            close_set = w.same.close_set;
            length_set = w.same.length_set;
            total = w.same.total;
            left = w.same.left;
          };
        }
  ]
