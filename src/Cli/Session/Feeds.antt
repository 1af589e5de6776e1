-- ===== src/Cli/Session/Feeds.antt =====
-- src/cli/main.cpp: what a session does with the lines of one menu.
use auto_drop.Prelude.{
  ◌≡◌, refl, sym, ◌∙◌, ap, Bool, true, false, some, List, [], ◌∷◌, ◌++◌, map, Str, codes, str_beq,
  Dict, lookup, has, str_eq, All, All-append, append_assoc,
}
use auto_drop.Cli.SmConfig.{reread}
use auto_drop.Cli.Words.{plain}
use auto_drop.Cli.Words.Lines.{unlines, OneLine, getlines_from-unlines, unlines-append}
use auto_drop.Cli.Session.{
  Session, at_root, at_menu, Handler, Entry, takes, alone, Library, Documented, is_global,
  after_write, insert_spaces, bdr_part, root_menu, obey, obey_words, feed, feed_all,
}

abbrev pub indent : Str → Str
indent l = codes "  " ++ l

-- A write that the code of the states comes back from.
pub after_write-same :
    (stored : Str → Str) (written : Bool) (s : Session)
    → reread stored s.sm ≡ s.sm
    → after_write stored written s ≡ s
after_write-same stored true s same = λ i. record s { sm = same i }
after_write-same stored false s same = refl

-- The lines of a part of make_bdr_string.
abbrev pub part_lines : Str → List Str → List Str
part_lines menu_name ls = menu_name ∷ (map indent ls ++ codes "ad" ∷ [])

pub bdr_part-lines :
    (menu_name : Str) (ls : List Str)
    → All OneLine ls
    → bdr_part menu_name ls ≡ unlines (part_lines menu_name ls)
unfolding bdr_part insert_spaces
bdr_part-lines menu_name ls h =
    ap (λ ms. (menu_name ++ codes "\n") ++ (unlines (map indent ms) ++ codes "ad\n"))
      (getlines_from-unlines ls h)
    ∙ append_assoc menu_name (codes "\n") (unlines (map indent ls) ++ codes "ad\n")
    ∙ ap (λ (s : Str). menu_name ++ 10 ∷ s) (sym (unlines-append (map indent ls) (codes "ad" ∷ [])))

module _ (drivers : List Str) (check_lua stored : Str → Str) (edited : List Str → Str)
    (lib : Library) (doc : Documented lib) where
  abbrev obeys : List Str → Session → Session
  obeys = obey_words drivers check_lua stored edited lib

  abbrev feeds : List Str → Session → Session
  feeds = feed_all drivers check_lua stored edited lib

  -- A line whose words are a command of the menu and its parameters.
  pub feed-command :
      (menu name : Str) (cmds : Dict Str Entry) (h : Handler) (ps : List Str) (line : Str)
      (s : Session)
      → is_global name ≡ false
      → lookup menu (root_menu drivers check_lua stored edited).menus ≡ some cmds
      → lookup name cmds ≡ some (takes h)
      → s.place ≡ at_menu menu
      → lib.split line ≡ name ∷ ps
      → feed drivers check_lua stored edited lib line s ≡ h ps s
  unfolding feed
  feed-command menu name cmds h ps line s own in_menus in_cmds here words =
      let m = root_menu drivers check_lua stored edited in
      ap (λ ws. obeys ws s) words
      ∙ ap (λ p. obey drivers check_lua stored edited lib (lib.pick m p (name ∷ ps)) s) here
      ∙ ap (λ k. obey drivers check_lua stored edited lib k s)
          (doc.command m menu name cmds h ps own in_menus in_cmds)

  pub feed-alone :
      (menu name : Str) (cmds : Dict Str Entry) (f : Session → Session) (line : Str) (s : Session)
      → is_global name ≡ false
      → lookup menu (root_menu drivers check_lua stored edited).menus ≡ some cmds
      → lookup name cmds ≡ some (alone f)
      → s.place ≡ at_menu menu
      → lib.split line ≡ name ∷ []
      → feed drivers check_lua stored edited lib line s ≡ f s
  unfolding feed
  feed-alone menu name cmds f line s own in_menus in_cmds here words =
      let m = root_menu drivers check_lua stored edited in
      ap (λ ws. obeys ws s) words
      ∙ ap (λ p. obey drivers check_lua stored edited lib (lib.pick m p (name ∷ [])) s) here
      ∙ ap (λ k. obey drivers check_lua stored edited lib k s)
          (doc.command_alone m menu name cmds f own in_menus in_cmds)

  feed-indent :
      (l : Str) (s : Session)
      → feed drivers check_lua stored edited lib (indent l) s
        ≡ feed drivers check_lua stored edited lib l s
  unfolding feed
  feed-indent l s = ap (λ ws. obeys ws s) (doc.splits.blank (32 ∷ l) ∙ doc.splits.blank l)

  pub feed_all-append :
      (ls ms : List Str) (s : Session) → feeds (ls ++ ms) s ≡ feeds ms (feeds ls s)
  unfolding feed_all
  feed_all-append [] ms s = refl
  feed_all-append (l ∷ ls) ms s =
      feed_all-append ls ms (feed drivers check_lua stored edited lib l s)

  feed_all-indent : (ls : List Str) (s : Session) → feeds (map indent ls) s ≡ feeds ls s
  unfolding feed_all
  feed_all-indent [] s = refl
  feed_all-indent (l ∷ ls) s =
      ap (feeds (map indent ls)) (feed-indent l s)
      ∙ feed_all-indent ls (feed drivers check_lua stored edited lib l s)

  feed-to_menu :
      (menu : Str) (s : Session)
      → plain menu ≡ true
      → is_global menu ≡ false
      → has menu (root_menu drivers check_lua stored edited).commands ≡ false
      → has menu (root_menu drivers check_lua stored edited).menus ≡ true
      → s.place ≡ at_root
      → feed drivers check_lua stored edited lib menu s ≡ record s { place = at_menu menu }
  unfolding feed
  feed-to_menu menu s word own no_command in_menus here =
      let m = root_menu drivers check_lua stored edited in
      ap (λ ws. obeys ws s) (doc.splits.last_word menu word)
      ∙ ap (λ p. obey drivers check_lua stored edited lib (lib.pick m p (menu ∷ [])) s) here
      ∙ ap (λ k. obey drivers check_lua stored edited lib k s)
          (doc.to_menu m menu own no_command in_menus)

  feed-to_root :
      (menu : Str) (cmds : Dict Str Entry) (s : Session)
      → lookup menu (root_menu drivers check_lua stored edited).menus ≡ some cmds
      → has (codes "ad") cmds ≡ false
      → s.place ≡ at_menu menu
      → feed drivers check_lua stored edited lib (codes "ad") s ≡ record s { place = at_root }
  unfolding feed str_beq
  feed-to_root menu cmds s in_menus no_command here =
      let m = root_menu drivers check_lua stored edited in
      ap (λ ws. obeys ws s) (doc.splits.last_word (codes "ad") refl)
      ∙ ap (λ p. obey drivers check_lua stored edited lib (lib.pick m p (codes "ad" ∷ [])) s) here
      ∙ ap (λ k. obey drivers check_lua stored edited lib k s)
          (doc.to_root m menu cmds refl in_menus no_command)

  -- A part is entered from the root menu, its lines are run in its menu, and it is left again.
  pub feed_all-part :
      (menu : Str) (cmds : Dict Str Entry) (ls : List Str) (s s' : Session)
      → plain menu ≡ true
      → is_global menu ≡ false
      → has menu (root_menu drivers check_lua stored edited).commands ≡ false
      → has menu (root_menu drivers check_lua stored edited).menus ≡ true
      → lookup menu (root_menu drivers check_lua stored edited).menus ≡ some cmds
      → has (codes "ad") cmds ≡ false
      → s.place ≡ at_root
      → feeds ls (record s { place = at_menu menu }) ≡ record s' { place = at_menu menu }
      → feeds (part_lines menu ls) s ≡ record s' { place = at_root }
  unfolding feed_all
  feed_all-part menu cmds ls s s' word own no_root in_menus at_cmds no_ad here inside =
      ap (feeds (map indent ls ++ codes "ad" ∷ []))
        (feed-to_menu menu s word own no_root in_menus here)
      ∙ feed_all-append (map indent ls) (codes "ad" ∷ []) (record s { place = at_menu menu })
      ∙ ap (feeds (codes "ad" ∷ []))
          (feed_all-indent ls (record s { place = at_menu menu }) ∙ inside)
      ∙ feed-to_root menu cmds (record s' { place = at_menu menu }) at_cmds no_ad refl

indent-OneLine : (ls : List Str) → All OneLine ls → All OneLine (map indent ls)
indent-OneLine [] h = tt
indent-OneLine (l ∷ ls) h = (h.0, indent-OneLine ls h.1)

pub part_lines-OneLine :
    (menu_name : Str) (ls : List Str)
    → OneLine menu_name
    → All OneLine ls
    → All OneLine (part_lines menu_name ls)
part_lines-OneLine menu_name ls h k =
    (h, All-append OneLine (map indent ls) (codes "ad" ∷ []) (indent-OneLine ls k) (refl, tt))
