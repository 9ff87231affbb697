-- ===== src/Ota/Braces.antt =====
-- The brace scanner of bridge-core/src/ota.rs against a grammar of balanced JSON text.
use mathlib.Core.Option
use micro_bacnet_bridge.Base.{
  ℕ, ◌+◌, ◌-◌, ◌%◌, ◌^◌, ◌≤◌, ◌<◌, ◌≡◌, ◌≢◌, refl, ap, ◌∙◌, arith, List, [], ◌∷◌, ◌++◌,
  append_assoc, length, length-append, drop-append, le→leb, All, true, false, ◌==◌, Option, none,
  some, ok,
}
use micro_bacnet_bridge.Slice.{IsSlice, slice_from}
use micro_bacnet_bridge.Ota.Json.{
  quote, open_brace, close_brace, backslash, Scan, scan_start, scan_byte, closes, scan,
  find_closing_brace,
}

-- The characters of a string: any but a quote or a backslash, or any behind a backslash.
pub data StringChar : Type 0 where
  raw : ℕ → StringChar
  escaped : ℕ → StringChar

-- The text between two braces: other bytes, strings, and texts in braces of their own.
pub data Body : Type 0 where
  nothing : Body
  other : ℕ → Body → Body
  string : List StringChar → Body → Body
  braced : Body → Body → Body

abbrev pub render_chars : List StringChar → List ℕ
render_chars [] = []
render_chars (raw c ∷ cs) = c ∷ render_chars cs
render_chars (escaped c ∷ cs) = backslash ∷ c ∷ render_chars cs

abbrev pub render : Body → List ℕ
render nothing = []
render (other b body) = b ∷ render body
render (string cs body) = quote ∷ (render_chars cs ++ (quote ∷ render body))
render (braced inner body) = open_brace ∷ (render inner ++ (close_brace ∷ render body))

abbrev pub IsChar : StringChar → Type 0
IsChar (raw c) = (c ≢ quote) × (c ≢ backslash)
IsChar (escaped c) = Unit {0}

abbrev pub IsBody : Body → Type 0
IsBody nothing = Unit {0}
IsBody (other b body) = (b ≢ quote) × (b ≢ open_brace) × (b ≢ close_brace) × IsBody body
IsBody (string cs body) = All IsChar cs × IsBody body
IsBody (braced inner body) = IsBody inner × IsBody body

abbrev outside : ℕ → Scan
outside d = record { depth = d; in_string = false; escape = false }

abbrev inside : ℕ → Scan
inside d = record { depth = d; in_string = true; escape = false }

abbrev shift : ℕ → Option ℕ → Option ℕ
shift n = Option.map (λ i. i + n)

shift-shift : (m n k : ℕ) (o : Option ℕ) → k ≡ m + n → shift m (shift n o) ≡ shift k o
shift-shift m n k none e = refl
shift-shift m n k (some i) e = ap some (omega arith)

-- A byte that ends nothing.
scan_on :
    (s s' : Scan) (b : ℕ) (xs : List ℕ) (k n : ℕ) (o : Option ℕ)
    → closes b s ≡ false
    → scan_byte b s ≡ s'
    → k ≡ 1 + n
    → scan s' xs ≡ shift n o
    → scan s (b ∷ xs) ≡ shift k o
unfolding scan
scan_on s s' b xs k n o ends step e rest = rw (ends, step, rest) (shift-shift 1 n k o e)

shift_zero : (o : Option ℕ) → o ≡ shift 0 o
shift_zero none = refl
shift_zero (some i) = ap some (omega arith)

differs : {a b : ℕ} → a ≢ b → (a == b) ≡ false
differs ne = ground arith

module _ (d : ℕ) (rest : List ℕ) where
  scan_chars :
      (cs : List StringChar)
      → All IsChar cs
      → scan (inside d) (render_chars cs ++ (quote ∷ rest))
        ≡ shift (length (render_chars cs) + 1) (scan (outside d) rest)
  scan_chars [] h =
      scan_on (inside d) (outside d) quote rest 1 0 _ refl refl refl
        (shift_zero (scan (outside d) rest))
  scan_chars (raw c ∷ cs) ((nq, nb), h) =
      scan_on _ (inside d) c _ _ _ _ refl (rw (differs nb, differs nq) refl) (omega arith)
        (scan_chars cs h)
  scan_chars (escaped c ∷ cs) (_, h) =
      let after : Scan = record { depth = d; in_string = true; escape = true } in
      scan_on _ after backslash _ _ _ _ refl refl (omega arith)
        (scan_on after (inside d) c _ _ _ _ refl refl refl (scan_chars cs h))

-- A balanced text is passed over at a depth of at least 1 that leaves room for its own braces.
scan_body :
    (body : Body) (d : ℕ) (rest : List ℕ)
    → IsBody body
    → 1 ≤ d
    → d + length (render body) < 2 ^ 32
    → scan (outside d) (render body ++ rest) ≡ shift (length (render body)) (scan (outside d) rest)
scan_body nothing d rest h low high = shift_zero (scan (outside d) rest)
scan_body (other b body) d rest (nq, nopen, nc, h) low high =
    scan_on _ (outside d) b _ _ _ _ (rw (differs nc) refl)
      (rw (differs nq, differs nopen, differs nc) refl) (omega arith)
      (scan_body body d rest h low (omega arith))
scan_body (string cs body) d rest (hs, h) low high =
    let size = length-append (render_chars cs) (quote ∷ render body) in
    let shape = append_assoc (render_chars cs) (quote ∷ render body) rest in
    scan_on _ (inside d) quote ((render_chars cs ++ (quote ∷ render body)) ++ rest) _
      (length (render_chars cs ++ (quote ∷ render body))) (scan (outside d) rest) refl refl
      (omega arith)
      (rw shape (
        scan_chars d (render body ++ rest) cs hs
        ∙ ap (shift (length (render_chars cs) + 1)) (scan_body body d rest h low (omega arith))
        ∙ shift-shift (length (render_chars cs) + 1) (length (render body)) _ _ (omega arith)))
scan_body (braced inner body) d rest (hi, h) low high =
    let size = length-append (render inner) (close_brace ∷ render body) in
    let shape = append_assoc (render inner) (close_brace ∷ render body) rest in
    let up : (d + 1) % 2 ^ 32 ≡ d + 1 = omega arith in
    let down : (d + 1 + (2 ^ 32 - 1)) % 2 ^ 32 ≡ d = omega arith in
    let stays : ((d + 1 + (2 ^ 32 - 1)) % 2 ^ 32 == 0) ≡ false = ground arith in
    scan_on _ (outside (d + 1)) open_brace ((render inner ++ (close_brace ∷ render body)) ++ rest) _
      (length (render inner ++ (close_brace ∷ render body))) (scan (outside d) rest) refl
      (ap outside up) (omega arith)
      (rw shape (
        scan_body inner (d + 1) (close_brace ∷ (render body ++ rest)) hi (omega arith) (omega arith)
        ∙ ap (shift (length (render inner))) (
            scan_on _ (outside d) close_brace (render body ++ rest) _ _ _ stays (ap outside down)
              refl (scan_body body d rest h low (omega arith)))
        ∙ shift-shift (length (render inner)) (1 + length (render body)) _ _ (omega arith)))

-- In a slice, from an opening brace on that stands before a balanced text and its closing brace,
-- `find_closing_brace` returns the position of that brace, whatever quotes and braces the text's
-- strings hold and whatever follows.
pub find_closing_brace-render :
    (pre : List ℕ) (body : Body) (rest : List ℕ)
    → IsBody body
    → IsSlice (pre ++ (open_brace ∷ (render body ++ (close_brace ∷ rest))))
    → find_closing_brace (pre ++ (open_brace ∷ (render body ++ (close_brace ∷ rest)))) (length pre)
      ≡ ok (some (length pre + (1 + length (render body))))
unfolding find_closing_brace slice_from
find_closing_brace-render pre body rest h slice =
    let text = open_brace ∷ (render body ++ (close_brace ∷ rest)) in
    let size = length-append pre text in
    let inner = length-append (render body) (close_brace ∷ rest) in
    let close : scan (outside 1) (close_brace ∷ rest) ≡ some 0 = refl in
    let found : scan scan_start text ≡ shift (1 + length (render body)) (some 0) =
      scan_on scan_start (outside 1) open_brace (render body ++ (close_brace ∷ rest)) _
        (length (render body)) (some 0) refl refl refl
        (scan_body body 1 (close_brace ∷ rest) h (omega arith) (omega arith)
          ∙ ap (shift (length (render body))) close) in
    rw (le→leb (length pre) (length (pre ++ text)) (omega arith), drop-append pre text, found)
      (ap (λ (i : ℕ). ok (some i)) (omega arith))
