-- ===== src/Cal/Channels.antt =====
-- src/tc_cal.c: the loops over the channels copy whole arrays.
use test_controller.Base.{
  ℕ, zero, suc, ◌+◌, ◌<◌, ◌≤◌, ◌≡◌, refl, ap, ◌∙◌, none, some, List, [], ◌∷◌, CString, str_eq,
  length, set, get_or, arith, Bool-cases, inl, inr, ◌==◌, if◌then◌else◌,
}
use test_controller.Json.{JsonApi, IsJson, same_key}
use test_controller.Cal.Json.{each_channel, channel_key}

-- Two rounds that agree on every channel make equal loops.
pub each_channel-ext :
    {A : Type 0} (f g : ℕ → A → A) (n ch : ℕ) (a : A)
    → ((i : ℕ) (b : A) → i < ch + n → f i b ≡ g i b)
    → each_channel f n ch a ≡ each_channel g n ch a
unfolding each_channel
each_channel-ext f g zero ch a h = refl
each_channel-ext f g (suc n) ch a h =
    each_channel-ext f g n (suc ch) (f ch a) (λ i b l. h i b (omega arith))
    ∙ ap (each_channel g n (suc ch)) (h ch a (omega arith))

unfoldable pub copy_from : {A : Type 0} → A → List A → ℕ → ℕ → List A → List A
unfolding each_channel
copy_from d xs = each_channel (λ i zs. set zs i (get_or xs i d))

copy_from-shift :
    {A : Type 0} (d x : A) (xs ys : List A) (n ch : ℕ)
    → copy_from d (x ∷ xs) n (suc ch) (x ∷ ys) ≡ x ∷ copy_from d xs n ch ys
unfolding copy_from
copy_from-shift d x xs ys zero ch = refl
copy_from-shift d x xs ys (suc n) ch =
    copy_from-shift d x xs (set ys ch (get_or xs ch d)) n (suc ch)

-- A loop over all channels leaves a copy of the array.
pub copy_from-all :
    {A : Type 0} (d : A) (xs ys : List A) (n : ℕ)
    → length xs ≡ n
    → length ys ≡ n
    → copy_from d xs n 0 ys ≡ xs
unfolding copy_from
copy_from-all d [] [] zero h g = refl
copy_from-all d [] ys (suc n) h g = absurd (omega arith)
copy_from-all d (x ∷ xs) ys zero h g = absurd (omega arith)
copy_from-all d [] (y ∷ ys) zero h g = absurd (omega arith)
copy_from-all d (x ∷ xs) [] (suc n) h g = absurd (omega arith)
copy_from-all d (x ∷ xs) (y ∷ ys) (suc n) h g =
    copy_from-shift d x xs ys n 0 ∙ ap (◌∷◌ x) (copy_from-all d xs ys n (omega arith) (omega arith))

pub channel_key-same :
    (i j : ℕ) → i < 10 → j < 10 → same_key (channel_key i) (channel_key j) ≡ (i == j)
unfolding str_eq
channel_key-same i j h g = ground arith

module _ {F : Type 0} (js : JsonApi F) (ok : IsJson js) (node : ℕ → js.Json) where
  abbrev add_channel : ℕ → js.Json → js.Json
  add_channel ch o = js.add_item o (channel_key ch) (node ch)

  keeps_channel :
      (n ch : ℕ) (o : js.Json) (k : CString) (x : js.Json)
      → js.item o k ≡ some x
      → js.item (each_channel add_channel n ch o) k ≡ some x
  unfolding each_channel
  keeps_channel zero ch o k x h = h
  keeps_channel (suc n) ch o k x h =
      keeps_channel n (suc ch) (add_channel ch o) k x
        (ok.item-add_item o (channel_key ch) (node ch) k ∙ rw h refl)

  -- An object that a loop fills has every channel.
  pub finds_channel :
      (n ch j : ℕ) (o : js.Json)
      → ch + n ≤ 10
      → ch ≤ j
      → j < ch + n
      → js.item o (channel_key j) ≡ none
      → js.item (each_channel add_channel n ch o) (channel_key j) ≡ some (node j)
  unfolding each_channel
  finds_channel zero ch j o small from below h = absurd (omega arith)
  finds_channel (suc n) ch j o small from below h =
      let added : js.item (add_channel ch o) (channel_key j)
          ≡ (if ch == j then some (node ch) else none) =
        ok.item-add_item o (channel_key ch) (node ch) (channel_key j)
        ∙ rw (h, channel_key-same ch j (omega arith) (omega arith)) refl in
      elim (Bool-cases (ch == j)) [
        | inl here ↦
            let eq : ch ≡ j = ground arith in
            keeps_channel n (suc ch) (add_channel ch o) (channel_key j) (node j)
              (added ∙ rw (here, eq) refl)
        | inr later ↦
            finds_channel n (suc ch) j (add_channel ch o) (omega arith) (ground arith) (omega arith)
              (added ∙ rw later refl)
      ]
