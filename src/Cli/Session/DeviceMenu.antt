-- ===== src/Cli/Session/DeviceMenu.antt =====
-- src/cli/main.cpp: what a session does with the lines of make_bdr of src/cli/device_config.cpp.
use auto_drop.Prelude.{
  ◌≡◌, refl, ◌∙◌, ap, true, false, some, List, [], ◌∷◌, ◌++◌, Str, codes, str_beq, lookup, str_eq,
  All,
}
use auto_drop.Cli.DeviceConfig.{Device, add_device, add_devices, make_bdr, make_bdr_lines}
use auto_drop.Cli.SmConfig.{is_empty, reread}
use auto_drop.Cli.Words.{plain, body}
use auto_drop.Cli.Words.Lines.{OneLine, OneLine-append, plain-OneLine}
use auto_drop.Cli.Session.{Session, at_menu, Library, Documented, added, feed_all}
use auto_drop.Cli.Session.Feeds.{feed-command, after_write-same}

-- A device whose names are words, and whose arguments can stand between single quotes.
pub record PlainDevice (d : Device) : Type 0 where
  pub plain_driver : plain d.driver ≡ true
  pub plain_name : plain d.name ≡ true
  pub some_args : is_empty d.args ≡ false
  pub quotable_args : body 39 false d.args ≡ some d.args
  pub one_line : OneLine d.args

module _ (drivers : List Str) (check_lua stored : Str → Str) (edited : List Str → Str)
    (lib : Library) (doc : Documented lib) where
  quoted_args :
      (args : Str)
      → is_empty args ≡ false
      → body 39 false args ≡ some args
      → lib.split (39 ∷ (args ++ 39 ∷ [])) ≡ args ∷ []
  quoted_args [] h q = cc h
  quoted_args (c ∷ args) h q = doc.splits.sentence 39 c (c ∷ args) args refl q

  abbrev rest_of_line : Device → Str
  rest_of_line d = d.driver ++ 32 ∷ (d.name ++ 32 ∷ (39 ∷ (d.args ++ 39 ∷ [])))

  rest-words :
      (d : Device) → PlainDevice d → lib.split (rest_of_line d) ≡ d.driver ∷ d.name ∷ d.args ∷ []
  rest-words d h =
      doc.splits.word d.driver _ h.plain_driver
      ∙ ap (◌∷◌ d.driver) (
          doc.splits.word d.name _ h.plain_name
          ∙ ap (◌∷◌ d.name) (quoted_args d.args h.some_args h.quotable_args))

  rest-OneLine : (d : Device) → PlainDevice d → OneLine (rest_of_line d)
  rest-OneLine d h = OneLine-append d.driver _ (plain-OneLine d.driver h.plain_driver) (
      OneLine-append d.name _ (plain-OneLine d.name h.plain_name)
        (OneLine-append d.args (39 ∷ []) h.one_line refl))

  pub device_lines-OneLine :
      (ds : List Device) → All PlainDevice ds → All OneLine (make_bdr_lines ds)
  unfolding make_bdr_lines
  device_lines-OneLine [] h = tt
  device_lines-OneLine (d ∷ ds) h = (rest-OneLine d h.0, device_lines-OneLine ds h.1)

  pub feed_all-devices :
      (ds : List Device) (s : Session)
      → All PlainDevice ds
      → reread stored s.sm ≡ s.sm
      → s.place ≡ at_menu (codes "device")
      → feed_all drivers check_lua stored edited lib (make_bdr_lines ds) s
        ≡ record s { devices = add_devices drivers (make_bdr ds) s.devices }
  unfolding feed_all make_bdr_lines make_bdr add_devices lookup str_beq
  feed_all-devices [] s h same here = refl
  feed_all-devices (d ∷ ds) s h same here =
      let ps = d.driver ∷ d.name ∷ d.args ∷ [] in
      let s' : Session = record s { devices = (add_device drivers ps s.devices).0 } in
      ap (feed_all drivers check_lua stored edited lib (make_bdr_lines ds)) (
        feed-command drivers check_lua stored edited lib doc (codes "device") (codes "add_device") _
          _ ps (codes "add_device " ++ rest_of_line d) s refl refl refl here
          (doc.splits.word (codes "add_device") (rest_of_line d) refl
            ∙ ap (◌∷◌ (codes "add_device")) (rest-words d h.0))
        ∙ after_write-same stored (added (add_device drivers ps s.devices).1) s' same)
      ∙ feed_all-devices ds s' h.1 same here
