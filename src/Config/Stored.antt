-- ===== src/Config/Stored.antt =====
-- src/tc_config.c: the configuration goes through the store.
use test_controller.Base.{
  ◌≡◌, ◌<◌, refl, ap, ◌∙◌, Bool, true, false, none, some, str_eq, length, arith, Option-cases, inl,
  inr,
}
use test_controller.Base.Int.{pos}
use test_controller.Json.{JsonApi, IsJson, c_string}
use test_controller.Storage.Entries.{configuration, domain_eq}
use test_controller.Storage.Map.{size_result}
use test_controller.Storage.Interface.{
  KeyValue, IsMap, not_positive, size_of-some, get-some, positive,
}
use test_controller.Config.{key, load, load_sized, load_text, save, reset_defaults}

module _ {F : Type 0} (js : JsonApi F) (ok : IsJson js) (kv : KeyValue) (m : IsMap kv) where
  open js use {Json}

  -- A configuration that was saved with success is loaded again, for a tree that can be printed.
  pub load-save_config :
      (s : kv.State) (cfg : Json)
      → m.IsReady s
      → ok.IsPrintable cfg
      → (save js kv s (some cfg)).1 ≡ pos 0
      → load js kv true (save js kv s (some cfg)).0 ≡ (some cfg, pos 0)
  unfolding save load load_sized load_text domain_eq str_eq
  load-save_config s cfg ready printable done = elim (Option-cases (js.print cfg)) [
    | inl no_text ↦ absurd (ground (arith, no_text))
    | inr (json, printed) ↦
        let short : length key < 64 = omega arith in
        let stored : (kv.put s configuration key json).1 ≡ pos 0 = ground (arith, printed) in
        let s' = (kv.put s configuration key json).0 in
        let ready' = m.put-IsReady s configuration key json short ready in
        let kept : m.entry s' configuration key ≡ some json =
          m.entry-put s configuration key json configuration key short ready stored in
        let some_bytes : not_positive (pos (length json)) ≡ false =
          positive (length json) (ok.print-nonempty cfg json printed) in
        let parsed : js.parse (c_string json) ≡ some cfg =
          ap js.parse (ok.c_string-print cfg json printed)
          ∙ ok.parse-print cfg json printable printed in
        rw (printed, save)
          (rw (size_of-some kv m s' configuration key json ready' kept, load)
            (rw (some_bytes) (
              rw (get-some kv m s' configuration key json ready' kept, load_sized)
                (rw some_bytes (rw (parsed, load_text) refl)))))
  ]

  -- Without an entry in the store the factory defaults are loaded.
  pub load-empty :
      (has_buffer : Bool) (s : kv.State)
      → m.IsReady s
      → m.entry s configuration key ≡ none
      → load js kv has_buffer s ≡ (reset_defaults js, pos 0)
  unfolding load
  load-empty has_buffer s ready gone =
      let size : kv.size_of s configuration key ≡ pos 0 =
        m.size_of-entry s configuration key ready ∙ ap size_result gone in
      rw (size, load) refl
