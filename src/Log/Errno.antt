-- ===== src/Log/Errno.antt =====
-- src/core/ngx_log.c, ngx_log_errno: the text that it leaves in the buffer.
use nginx_inside_out.Prelude.{
  ℕ, ◌+◌, ◌-◌, ◌^◌, ◌≤◌, ◌<◌, ◌≡◌, inl, inr, refl, sym, ◌∙◌, true, false, List, [], ◌∷◌, ◌++◌,
  arith, ltb, leb, if◌then◌else◌, Bool-cases, length, take, length-append, length-take, take-append,
  take_all, append-nil, append_assoc,
}
use nginx_inside_out.Str.Num.{Bytes}
use nginx_inside_out.Str.Format.Spec.{half}
use nginx_inside_out.Str.Format.Directive.{DoubleOps}
use nginx_inside_out.Str.Format.Loop.{done}
use nginx_inside_out.Str.Format.Items.{Item, plain, integer, AllItems, render, format_of, args_of}
use nginx_inside_out.Str.Format.Render.{vslprintf-render}
use nginx_inside_out.Log.Text.{
  codes, Describe, message, strerror, back, and_then, close_bracket, slprintf, log_errno,
}

-- Text as far as a buffer of `room` bytes holds it, and more text behind it.
pub append-take :
    (room : ℕ) (xs ys : Bytes)
    → take room xs ++ take (room - length (take room xs)) ys ≡ take room (xs ++ ys)
append-take room xs ys =
    let left : room - length (take room xs) ≡ room - length xs =
      omega (arith, length-take room xs) in
    rw (left, take-append)

-- The same where the first text fits.
pub append-take_fits :
    (room : ℕ) (xs ys : Bytes)
    → length xs ≤ room
    → xs ++ take (room - length xs) ys ≡ take room (xs ++ ys)
append-take_fits room xs ys h = rw (take-append, take_all room xs h) refl

-- The content, cut off with three dots where it leaves less than 50 bytes.
abbrev pub kept : (size : ℕ) → Bytes → Bytes
kept size content =
    if leb (length content) (size - 50) then content else take (size - 50) content ++ codes "..."

-- ` (<number>: <message>)`
abbrev pub code_items : (err : ℕ) → List Item
code_items err = plain b' ' ∷ plain b'(' ∷ integer err ∷ plain b':' ∷ plain b' ' ∷ []

abbrev pub code_text : Describe → (err : ℕ) → Bytes
code_text describe err = render (code_items err) ++ (message (describe err) ++ codes ")")

pub strerror-take :
    (describe : Describe) (err size : ℕ)
    → strerror describe err size ≡ take size (message (describe err))
unfolding strerror
strerror-take describe err size = elim (Bool-cases (ltb (length msg) size)) [
  | inl short ↦
      rw (short, take_all (length msg) msg (omega arith)) (sym (take_all size msg (ground arith)))
  | inr long ↦ rw long
]
  where
    msg : Bytes
    msg = message (describe err)

pub back-sub : (p n : ℕ) → n ≤ p → back p n ≡ p - n
back-sub p n h = let low : ltb p n ≡ false = ground arith in rw low

-- What is left open for the bracket, if anything is.
close_bracket-take :
    (start last : ℕ) (text : Bytes)
    → start ≤ last
    → close_bracket start last (take (last - start) text) ≡ take (last - start) (text ++ codes ")")
close_bracket-take start last text h =
    elim (Bool-cases (ltb (start + length (take (last - start) text)) last)) [
      | inl room ↦
          let short : length text < last - start =
            ground (arith, length-take (last - start) text) in
          rw (room, take_all (last - start) text (omega arith))
            (sym (
              take_all (last - start) (text ++ codes ")")
                (omega (arith, length-append text (codes ")")))))
      | inr full ↦
          let long : last - start ≤ length text = ground (arith, length-take (last - start) text) in
          let e : last - start - length text ≡ 0 = omega arith in
          rw (full, take-append, e) (sym (append-nil (take (last - start) text)))
    ]

module _ {Double : Type 0} (ops : DoubleOps Double) where
  -- Printing behind what is there, for a format put together from pieces.
  pub slprintf-render :
      (items : List Item) (start last : ℕ) (content : Bytes)
      → AllItems items
      → start + length content ≤ last
      → slprintf ops start last content (format_of items) (args_of items)
        ≡ done (take (last - start) (content ++ render items))
  unfolding slprintf
  slprintf-render items start last content ok h =
      let room : last - (start + length content) ≡ last - start - length content = omega arith in
      rw
        (
          vslprintf-render ops items (start + length content) last ok h,
          room,
          append-take_fits (last - start) content (render items) (omega arith),
        )
        refl

  -- In a buffer of at least 50 bytes that the content fits, `ngx_log_errno` cuts the content off with
  -- three dots where it leaves less than 50 bytes, and adds the number and the message of the error
  -- in brackets, as far as the buffer has room.
  pub log_errno-text :
      (describe : Describe) (start last : ℕ) (content : Bytes) (err : ℕ)
      → start + 50 ≤ last
      → start + length content ≤ last
      → err < 2 ^ 32
      → log_errno ops describe start last content err
        ≡ done (take (last - start) (kept (last - start) content ++ code_text describe err))
  unfolding log_errno
  log_errno-text describe start last content err big fits word =
      let low : back last 50 ≡ last - 50 = back-sub last 50 (omega arith) in
      elim (Bool-cases (leb (length content) (last - start - 50))) [
        | inl short ↦
            let test : ltb (last - 50) (start + length content) ≡ false = ground arith in
            rw (short, low, test) (rest content (ground arith))
        | inr long ↦
            let test : ltb (last - 50) (start + length content) ≡ true = ground arith in
            let inside : ltb last (start + 50) ≡ false = ground arith in
            let same : last - 50 - start ≡ last - start - 50 = omega arith in
            rw (long, low, test, inside, same)
              (rest (take (last - start - 50) content ++ codes "...") (
                omega (
                  arith,
                  length-append (take (last - start - 50) content) (codes "..."),
                  length-take (last - start - 50) content,
                )))
      ]
    where
      size : ℕ
      size = last - start

      rest :
          (k : Bytes)
          → start + length k ≤ last
          → and_then
              (slprintf ops start last k (codes " (%d: " ++ 0 ∷ []) (half err ∷ []))
              (λ shown. done (
                close_bracket start last
                  (shown ++ strerror describe err (back last (start + length shown)))))
            ≡ done (take size (k ++ code_text describe err))
      rest k h =
          let items = code_items err in
          let msg = message (describe err) in
          let shown = take size (k ++ render items) in
          let fit : length shown ≤ size = omega (arith, length-take size (k ++ render items)) in
          let room : back last (start + length shown) ≡ size - length shown =
            back-sub last (start + length shown) (omega arith) ∙ omega arith in
          rw
            (
              slprintf-render items start last k (ground (arith, word)) h,
              strerror-take describe err (back last (start + length shown)),
              room,
              append-take size (k ++ render items) msg,
              close_bracket-take start last ((k ++ render items) ++ msg) (omega arith),
              append_assoc (k ++ render items) msg (codes ")"),
              append_assoc k (render items) (msg ++ codes ")"),
            )
            refl
