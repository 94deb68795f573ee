-- ===== src/Main/Manifest.antt =====
-- The manifest that a first start writes, read back by `getIncrFileNameFromManifest` of app/main.go.
use redis_go.Base.{
  ℕ, ◌-◌, ◌≡◌, refl, ap, ◌∙◌, sym, true, false, ◌&&◌, List, [], ◌∷◌, ◌++◌, Option, some, arith, ltb,
  ◌==◌, Bytes, codes, All, append_assoc, append-nil, All-append, bytes_eq, if◌then◌else◌,
}
use redis_go.Resp.Reader.{space_width, fields_loop, fields, close_field}
use redis_go.Main.{
  split_lines, scan_words, is_incr, incr_in_lines, incr_file_name_from_manifest, new_manifest,
}

-- Letters, digits and marks of ASCII: no white space, and nothing of a longer character.
abbrev pub IsPrintable : ℕ → Type 0
IsPrintable c = (ltb 32 c && ltb c 128) ≡ true

space_width_printable : (c : ℕ) (s : Bytes) → IsPrintable c → space_width (c ∷ s) ≡ 0
unfolding space_width
space_width_printable c [] h = ground arith
space_width_printable c (d ∷ []) h = ground arith
space_width_printable c (d ∷ e ∷ s) h = ground arith

fields_loop-letter :
    (c : ℕ) (s cur : Bytes) (out : List Bytes)
    → space_width (c ∷ s) ≡ 0
    → fields_loop (c ∷ s) 0 cur out ≡ fields_loop s 0 (cur ++ c ∷ []) out
unfolding fields_loop
fields_loop-letter c s cur out h =
    ap
      (λ w.
        fields_loop s (w - 1) (if w == 0 then cur ++ c ∷ [] else [])
          (if w == 0 then out else close_field cur out))
      h

fields_loop-append :
    (s rest cur : Bytes) (out : List Bytes)
    → All IsPrintable s
    → fields_loop (s ++ rest) 0 cur out ≡ fields_loop rest 0 (cur ++ s) out
fields_loop-append [] rest cur out h = ap (λ c. fields_loop rest 0 c out) (sym (append-nil cur))
fields_loop-append (c ∷ s) rest cur out (hc, h) =
    fields_loop-letter c (s ++ rest) cur out (space_width_printable c (s ++ rest) hc)
    ∙ fields_loop-append s rest (cur ++ c ∷ []) out h
    ∙ ap (λ t. fields_loop rest 0 t out) (append_assoc cur (c ∷ []) s)

fields_loop-space :
    (s cur : Bytes) (out : List Bytes)
    → space_width (b' ' ∷ s) ≡ 1
    → fields_loop (b' ' ∷ s) 0 cur out ≡ fields_loop s 0 [] (close_field cur out)
unfolding fields_loop
fields_loop-space s cur out h =
    ap
      (λ w.
        fields_loop s (w - 1) (if w == 0 then cur ++ b' ' ∷ [] else [])
          (if w == 0 then out else close_field cur out))
      h

space_width_space : (s : Bytes) → space_width (b' ' ∷ s) ≡ 1
unfolding space_width
space_width_space [] = refl
space_width_space (d ∷ []) = refl
space_width_space (d ∷ e ∷ s) = refl

split_lines-append :
    (s rest cur : Bytes)
    → All (λ c. c == 10 ≡ false) s
    → split_lines cur (s ++ 10 ∷ rest) ≡ (cur ++ s) ∷ split_lines [] rest
unfolding split_lines
split_lines-append [] rest cur h = ap (λ t. t ∷ split_lines [] rest) (sym (append-nil cur))
split_lines-append (c ∷ s) rest cur (hc, h) = rw hc (
    split_lines-append s rest (cur ++ c ∷ []) h
    ∙ ap (λ t. t ∷ split_lines [] rest) (append_assoc cur (c ∷ []) s))

no_line_feed : (s : Bytes) → All IsPrintable s → All (λ c. c == 10 ≡ false) s
no_line_feed [] h = tt
no_line_feed (c ∷ s) (hc, h) = (ground arith, no_line_feed s h)

abbrev words : Bytes → List Bytes
words name = codes "file" ∷ name ∷ codes "seq" ∷ codes "1" ∷ codes "type" ∷ codes "i" ∷ []

fields_loop-tail :
    (c : ℕ) (name : Bytes)
    → fields_loop (codes " seq 1 type i") 0 (c ∷ name) (codes "file" ∷ []) ≡ words (c ∷ name)
unfolding fields_loop space_width
fields_loop-tail c name = refl

fields-new_manifest :
    (c : ℕ) (name : Bytes)
    → All IsPrintable (c ∷ name)
    → fields (codes "file " ++ ((c ∷ name) ++ codes " seq 1 type i")) ≡ words (c ∷ name)
unfolding fields
fields-new_manifest c name h =
    fields_loop-append (codes "file") (b' ' ∷ ((c ∷ name) ++ codes " seq 1 type i")) [] []
      (refl, (refl, (refl, (refl, tt))))
    ∙ fields_loop-space ((c ∷ name) ++ codes " seq 1 type i") (codes "file") []
        (space_width_space ((c ∷ name) ++ codes " seq 1 type i"))
    ∙ fields_loop-append (c ∷ name) (codes " seq 1 type i") [] (codes "file" ∷ []) h
    ∙ fields_loop-tail c name

scan_words_name :
    (name : Bytes)
    → bytes_eq name (codes "file") ≡ false
    → scan_words (words name) [] [] ≡ (name, codes "i")
unfolding scan_words bytes_eq
scan_words_name name h = rw h refl

abbrev chosen : Bytes × Bytes → List Bytes → Option Bytes
chosen p lines = if is_incr (p.0) (p.1) then some (p.0) else incr_in_lines lines

incr_in_lines-name :
    (c : ℕ) (name line : Bytes) (lines : List Bytes)
    → fields line ≡ words (c ∷ name)
    → bytes_eq (c ∷ name) (codes "file") ≡ false
    → incr_in_lines (line ∷ lines) ≡ some (c ∷ name)
unfolding incr_in_lines is_incr bytes_eq
incr_in_lines-name c name line lines h not_file =
    ap (λ ws. chosen (scan_words ws [] []) lines) h
    ∙ ap (λ p. chosen p lines) (scan_words_name (c ∷ name) not_file)

line-no_line_feed :
    (name : Bytes)
    → All IsPrintable name
    → All (λ c. c == 10 ≡ false) (codes "file " ++ (name ++ codes " seq 1 type i"))
line-no_line_feed name fine =
    let tail : All (λ c. c == 10 ≡ false) (codes " seq 1 type i") = (
      refl,
      (
        refl,
        (refl, (refl, (refl, (refl, (refl, (refl, (refl, (refl, (refl, (refl, (refl, tt))))))))))),
      ),
    ) in
    (
      refl,
      (
        refl,
        (
          refl,
          (
            refl,
            (
              refl,
              All-append (λ c. c == 10 ≡ false) name (codes " seq 1 type i")
                  (no_line_feed name fine) tail,
            ),
          ),
        ),
      ),
    )

new_manifest-line :
    (name : Bytes)
    → new_manifest name ≡ (codes "file " ++ (name ++ codes " seq 1 type i")) ++ 10 ∷ []
unfolding new_manifest
new_manifest-line name = simp append_assoc

-- A name of printable characters of ASCII that is not empty and not the word `file`: it is what is read
-- back from the manifest that is written for it.
pub incr_file_name_from_manifest-new_manifest :
    (c : ℕ) (name : Bytes)
    → All IsPrintable (c ∷ name)
    → bytes_eq (c ∷ name) (codes "file") ≡ false
    → incr_file_name_from_manifest (new_manifest (c ∷ name)) ≡ some (c ∷ name)
unfolding incr_file_name_from_manifest
incr_file_name_from_manifest-new_manifest c name fine not_file =
    let line = codes "file " ++ ((c ∷ name) ++ codes " seq 1 type i") in
    ap incr_file_name_from_manifest (new_manifest-line (c ∷ name))
    ∙ ap incr_in_lines (split_lines-append line [] [] (line-no_line_feed (c ∷ name) fine))
    ∙ incr_in_lines-name c name line (split_lines [] []) (fields-new_manifest c name fine) not_file
