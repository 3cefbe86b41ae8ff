-- ===== src/Format/Clean.antt =====
-- What the text view shows: line feeds, tabs and bytes from 0x20 on, and of those all that came in
-- outside escape sequences.
use xcom_lua.Prelude.{ℕ, ◌≤◌, ◌≡◌, refl, ◌⊎◌, false, List, [], ◌∷◌, ◌++◌, arith}
use xcom_lua.Prelude.Lists.{length, length-append}
use xcom_lua.Format.{TextState, outside, format_text}
use xcom_lua.Format.Reference.{feed, feed_all, format_text-feed_all}

abbrev pub IsVisible : ℕ → Type 0
IsVisible b = (b ≡ 10) ⊎ ((b ≡ 9) ⊎ (0x20 ≤ b))

abbrev pub AllVisible : List ℕ → Type 0
AllVisible [] = Unit
AllVisible (b ∷ bs) = IsVisible b × AllVisible bs

AllVisible-append : (xs ys : List ℕ) → AllVisible xs → AllVisible ys → AllVisible (xs ++ ys)
AllVisible-append [] ys p q = q
AllVisible-append (x ∷ xs) ys p q = (p.0, AllVisible-append xs ys p.1 q)

feed-AllVisible : (s : TextState) (b : ℕ) → AllVisible (feed s b).1
unfolding feed
feed-AllVisible s b = ground arith

length-feed : (s : TextState) (b : ℕ) → length (feed s b).1 ≤ 1
unfolding feed
length-feed s b = ground arith

feed_all-AllVisible :
    (bs : List ℕ) (s : TextState)
    → AllVisible (feed_all bs s).1 × (length (feed_all bs s).1 ≤ length bs)
unfolding feed_all
feed_all-AllVisible [] s = (tt, omega arith)
feed_all-AllVisible (b ∷ bs) s =
    let (v, n) = feed_all-AllVisible bs (feed s b).0 in
    (
      AllVisible-append (feed s b).1 _ (feed-AllVisible s b) v,
      omega (arith, length-append {0} (feed s b).1 (feed_all bs (feed s b).0).1, length-feed s b),
    )

-- A state in which no byte is held back.
abbrev pub IsSettled : TextState → Type 0
IsSettled s = (s.strip_state ≡ outside) × (s.pending_cr ≡ false)

feed_visible :
    (s : TextState) (b : ℕ)
    → IsVisible b
    → IsSettled s
    → ((feed s b).1 ≡ b ∷ []) × IsSettled (feed s b).0
unfolding feed
feed_visible s b v h = ground arith

feed_all_visible :
    (bs : List ℕ) (s : TextState) → AllVisible bs → IsSettled s → (feed_all bs s).1 ≡ bs
unfolding feed_all
feed_all_visible [] s v h = refl
feed_all_visible (b ∷ bs) s v h =
    let (e, h') = feed_visible s b v.0 h in rw (e, feed_all_visible bs (feed s b).0 v.1 h')

-- Of a block that fits the budget, what the text view writes is visible: every byte is a line
-- feed, a tab or at least 0x20, so no ESC and no CR is left; and it is no longer than the block.
pub format_text-AllVisible :
    (budget : ℕ) (bytes : List ℕ) (s : TextState)
    → length bytes ≤ budget
    → AllVisible (format_text budget bytes s).1
      × (length (format_text budget bytes s).1 ≤ length bytes)
format_text-AllVisible budget bytes s h =
    rw (format_text-feed_all budget bytes s h) (feed_all-AllVisible bytes s)

-- Visible bytes are written as they are, if they fit the budget and no escape sequence and no CR
-- is carried in.
pub format_text_visible :
    (budget : ℕ) (bytes : List ℕ) (s : TextState)
    → length bytes ≤ budget
    → AllVisible bytes
    → IsSettled s
    → (format_text budget bytes s).1 ≡ bytes
format_text_visible budget bytes s h v p =
    rw (format_text-feed_all budget bytes s h) (feed_all_visible bytes s v p)

-- So formatting is idempotent.
pub format_text_idempotent :
    (budget : ℕ) (bytes : List ℕ) (s t : TextState)
    → length bytes ≤ budget
    → IsSettled t
    → let out = (format_text budget bytes s).1 in (format_text budget out t).1 ≡ out
format_text_idempotent budget bytes s t h p =
    let (v, n) = format_text-AllVisible budget bytes s h in
    format_text_visible budget (format_text budget bytes s).1 t (omega arith) v p
