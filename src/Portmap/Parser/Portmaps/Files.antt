-- ===== src/Portmap/Parser/Portmaps/Files.antt =====
-- The lists of port maps and of copied text, as the file is read.
use avr_ha_lib.Prelude.{
  ℕ, ◌+◌, ◌≤◌, ◌<◌, ◌≡◌, refl, ap, Bool, false, Option, List, [], ◌∷◌, ◌++◌, if◌then◌else◌, arith,
  All, All-append, All-weaken, map,
}
use avr_ha_lib.Portmap.Uc.{Controller}
use avr_ha_lib.Portmap.Text.{Text}
use avr_ha_lib.Portmap.Description.{PinBlock, Portmap, CopySection}
use avr_ha_lib.Portmap.Tokenizer.{Token, right_brace, semicolon, identifier}
use avr_ha_lib.Portmap.Merge.{portmaps, copies}
use avr_ha_lib.Portmap.Merge.Order.{Ordered, numbers}
use avr_ha_lib.Portmap.Parser.{return, is, check_identifier_unique}
use avr_ha_lib.Portmap.Parser.Outcomes.{
  Sound, ends_then, ends_weaken, ends_return, ends_check_token, ends_token, ends_if, ends_unique,
}
use avr_ha_lib.Portmap.Parser.Pins.{ends_put_back_and}
use avr_ha_lib.Portmap.Parser.Portmaps.{Parsed, parse_portmap_entry, copy_section}
use avr_ha_lib.Portmap.Parser.Portmaps.Entries.{ends_line}
use avr_ha_lib.Portmap.Parser.Portmaps.Whole.{PortmapOk, ends_portmap}

-- The numbers are in order, and below `k`.
abbrev pub Numbered : ℕ → List ℕ → Type 0
Numbered k ms = Ordered 0 ms × All (λ m. m < k) ms

Ordered-append :
    (n k : ℕ) (ms : List ℕ)
    → n ≤ k
    → Ordered n ms
    → All (λ m. m < k) ms
    → Ordered n (ms ++ (k ∷ []))
Ordered-append n k [] h order below = (h, tt)
Ordered-append n k (m ∷ ms) h order below =
    (order.0, Ordered-append m k ms (let b = below.0 in omega arith) order.1 below.1)

Numbered-append : (k : ℕ) (ms : List ℕ) → Numbered k ms → Numbered (k + 1) (ms ++ (k ∷ []))
Numbered-append k ms (order, below) = (
  Ordered-append 0 k ms (omega arith) order below,
  All-append (λ m. m < k + 1) ms (k ∷ [])
      (All-weaken (λ m. m < k) (λ m. m < k + 1) (λ m h. omega arith) ms below) (omega arith, tt),
)

Numbered-more : (k : ℕ) (ms : List ℕ) → Numbered k ms → Numbered (k + 1) ms
Numbered-more k ms (order, below) =
    (order, All-weaken (λ m. m < k) (λ m. m < k + 1) (λ m h. omega arith) ms below)

portmap_added :
    (ps : List Portmap) (p : Portmap)
    → numbers (portmaps (ps ++ (p ∷ []))) ≡ numbers (portmaps ps) ++ (p.sequence_number ∷ [])
portmap_added [] p = refl
portmap_added (q ∷ ps) p = ap (◌∷◌ q.sequence_number) (portmap_added ps p)

copy_added :
    (cs : List CopySection) (c : CopySection)
    → numbers (copies (cs ++ (c ∷ []))) ≡ numbers (copies cs) ++ (c.sequence_number ∷ [])
copy_added [] c = refl
copy_added (d ∷ cs) c = ap (◌∷◌ d.sequence_number) (copy_added cs c)

-- What has been read, when the next number is `k`.
abbrev pub ParsedOk : Option Controller → ℕ → Parsed → Type 0
ParsedOk j k r =
    All (PortmapOk j) r.portmaps
    × Numbered k (numbers (portmaps r.portmaps))
    × Numbered k (numbers (copies r.copy_sections))

ok_more : (j : Option Controller) (k : ℕ) (r : Parsed) → ParsedOk j k r → ParsedOk j (k + 1) r
ok_more j k r (all, ps, cs) = (all, Numbered-more k _ ps, Numbered-more k _ cs)

ok_portmap :
    (j : Option Controller) (k : ℕ) (r : Parsed) (pm : Portmap)
    → pm.sequence_number ≡ k
    → PortmapOk j pm
    → ParsedOk j k r
    → ParsedOk j (k + 1) (record r { portmaps = r.portmaps ++ (pm ∷ []) })
ok_portmap j k r pm same ok (all, ps, cs) = (
  All-append (PortmapOk j) r.portmaps (pm ∷ []) all (ok, tt),
  rw (portmap_added r.portmaps pm, same) (Numbered-append k _ ps),
  Numbered-more k _ cs,
)

pub ok_copy :
    (j : Option Controller) (k : ℕ) (content : Text) (r : Parsed)
    → ParsedOk j k r
    → ParsedOk j (k + 1) (copy_section k content r)
ok_copy j k content r (all, ps, cs) = (
  all,
  Numbered-more k _ ps,
  rw (copy_added r.copy_sections (record { sequence_number = k; content = content }))
      (Numbered-append k _ cs),
)

ends_checked :
    {j : Option Controller} {n : ℕ} (ok : Bool) (r : Parsed) (t : Token)
    → Sound j n n
        (λ u. Unit)
        (if ok
          then check_identifier_unique (map (λ (pm : Portmap). pm.identifier) r.portmaps) t.content
          else return false)
ends_checked ok r t =
    ends_if ok (λ h. ends_weaken (omega arith) (λ a c. tt) (ends_unique _ t.content))
      (λ h. ends_return (omega arith) tt)

pub ends_entry :
    {j : Option Controller} (f n : ℕ) (fresh : PinBlock) (k : ℕ) (r : Parsed)
    → n < f
    → Sound j n n (λ r'. ParsedOk j k r → ParsedOk j (k + 1) r') (parse_portmap_entry f fresh k r)
unfolding parse_portmap_entry
ends_entry {j} f n fresh k r h = ends_token (λ m e t.
    ends_then (ends_check_token t identifier) (λ ok. ends_then (ends_checked ok r t) (λ u.
      ends_if (is t right_brace) (λ h'. ends_put_back_and t r (omega arith) (λ a b. ok_more j k r))
        (λ h'.
          ends_if (is t semicolon) (λ h''. ends_return (omega arith) (λ a b. ok_more j k r))
            (λ h''. ends_then ends_line (λ i.
              ends_then (ends_portmap f m fresh _ (omega arith) refl refl)
                (λ pm. ends_return (omega arith) (λ p q a b. ok_portmap j k r pm p.0 p.1))))))))
