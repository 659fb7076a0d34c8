-- ===== src/Room/State/Window.antt =====
-- The buffer of recent messages is the end of all that was posted.
use blabby.Prelude.{
  ℕ, suc, zero, ◌-◌, ◌≤◌, ◌≡◌, List, [], ◌∷◌, ◌++◌, arith, refl, ap, leb, length, drop,
  length-append, length-drop, Bool-cases, inl, inr, sym, ◌∙◌,
}
use mathlib.Core.List.{append_assoc, append-nil}
use blabby.Room.State.{
  ChatMessage, RoomState, push_recent, record_message, effective_bound, new_room_state,
}

unfoldable pub record_all : RoomState → List ChatMessage → RoomState
record_all s [] = s
record_all s (m ∷ ms) = record_all (record_message s m) ms

-- The last `n` of a list.
abbrev pub last : ℕ → List ChatMessage → List ChatMessage
last n ms = drop (length ms - n) ms

drop-append_le :
    (n : ℕ) (xs ys : List ChatMessage) → n ≤ length xs → drop n (xs ++ ys) ≡ drop n xs ++ ys
drop-append_le zero xs ys h = refl
drop-append_le (suc n) [] ys h = absurd (omega arith)
drop-append_le (suc n) (x ∷ xs) ys h = drop-append_le n xs ys (omega arith)

drop-drop_one : (n : ℕ) (xs : List ChatMessage) → drop 1 (drop n xs) ≡ drop (suc n) xs
drop-drop_one zero [] = refl
drop-drop_one zero (x ∷ xs) = refl
drop-drop_one (suc n) [] = refl
drop-drop_one (suc n) (x ∷ xs) = drop-drop_one n xs

module _ (bound : ℕ) (posted : List ChatMessage) (m : ChatMessage) where
  -- The full window drops its oldest message.
  slide :
      suc bound ≤ length posted
      → drop 1 (last (suc bound) posted) ++ m ∷ [] ≡ last (suc bound) (posted ++ m ∷ [])
  slide h =
      ap (λ l. l ++ m ∷ []) (drop-drop_one (length posted - suc bound) posted)
      ∙ sym (drop-append_le (suc (length posted - suc bound)) posted (m ∷ []) (omega arith))
      ∙ ap (λ n. drop n (posted ++ m ∷ [])) {x = suc (length posted - suc bound)}
          (omega (arith, length-append posted (m ∷ [])))

  -- Below its bound the window is all that was posted.
  grow :
      length posted ≤ bound
      → last (suc bound) posted ++ m ∷ [] ≡ last (suc bound) (posted ++ m ∷ [])
  grow h =
      let none_yet : length posted - suc bound ≡ 0 = omega arith in
      let none_now : length (posted ++ m ∷ []) - suc bound ≡ 0 =
        omega (arith, length-append posted (m ∷ [])) in
      rw (none_yet, none_now)

  push_recent-last :
      push_recent (suc bound) (last (suc bound) posted) m ≡ last (suc bound) (posted ++ m ∷ [])
  unfolding push_recent
  push_recent-last = elim (Bool-cases (leb (suc bound) (length (last (suc bound) posted)))) [
    | inl full ↦ rw full (slide (ground (arith, length-drop (length posted - suc bound) posted)))
    | inr room ↦ rw room (grow (ground (arith, length-drop (length posted - suc bound) posted)))
  ]

record_all-last :
    (bound : ℕ) (s : RoomState) (posted ms : List ChatMessage)
    → effective_bound s.max_recent ≡ suc bound
    → s.recent_messages ≡ last (suc bound) posted
    → (record_all s ms).recent_messages ≡ last (suc bound) (posted ++ ms)
unfolding record_all record_message
record_all-last bound s posted [] e w = w ∙ ap (last (suc bound)) (sym (append-nil posted))
record_all-last bound s posted (m ∷ ms) e w =
    record_all-last bound (record_message s m) (posted ++ m ∷ []) ms e (
      ap (λ b. push_recent b s.recent_messages m) e
      ∙ ap (λ r. push_recent (suc bound) r m) w
      ∙ push_recent-last bound posted m)
    ∙ ap (last (suc bound)) (append_assoc posted (m ∷ []) ms)

-- A fresh room keeps the last 100 of the messages that it records, in the order of posting.
pub recent_messages_window :
    (ms : List ChatMessage) → (record_all new_room_state ms).recent_messages ≡ last 100 ms
unfolding new_room_state
recent_messages_window ms = record_all-last 99 new_room_state [] ms refl refl
