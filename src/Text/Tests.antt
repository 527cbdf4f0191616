-- ===== src/Text/Tests.antt =====
-- Text parameters (cpp/common/Pack.cpp) at small inputs, and their theorems at concrete ones.
use testcluster.Prelude.{
  ◌^◌, ◌<◌, ◌≤◌, ◌≡◌, ◌⊎◌, refl, none, some, [], ◌∷◌, ◌++◌, length, take, arith,
}
use testcluster.Pack.Order.{Bytes}
use testcluster.Pack.Decode.{strlen, copy}
use testcluster.Text.Divide.{divide_string, find_gap}
use testcluster.Text.Sorted.{put, name_less, IsSorted}
use testcluster.Text.Parm.{
  TextParm, insert_uint, get_uint, deserilize, serilize, print_entries, read_entries, fill,
  read_entry, read_pair, c_string, new_text_parm,
}
use testcluster.Text.Parm.Trip.{IsClean, deserilize-serilize}
use testcluster.Text.Parm.Bounds.{IsOverlong, deserilize_cases}
use testcluster.Text.Parm.Numbers.{insert_uint_cases}

abbrev cmd : Bytes
cmd = b'c' ∷ b'm' ∷ b'd' ∷ []

abbrev uid : Bytes
uid = b'u' ∷ b'i' ∷ b'd' ∷ []

abbrev ping : Bytes
ping = b'p' ∷ b'i' ∷ []

abbrev line : Bytes
line = cmd ++ b'=' ∷ (ping ++ 32 ∷ (uid ++ b'=' ∷ b'7' ∷ 32 ∷ []))

abbrev parm : TextParm
parm = record { entries = (cmd, ping) ∷ (uid, b'7' ∷ []) ∷ []; stream = [] }

divide_run : divide_string line 32 ≡ (cmd ++ b'=' ∷ ping, uid ++ b'=' ∷ b'7' ∷ 32 ∷ [])
unfolding divide_string find_gap
divide_run = refl

-- The spaces in front and the order of the keys are not kept.
deserilize_run :
    deserilize new_text_parm (32 ∷ (uid ++ b'=' ∷ b'7' ∷ 32 ∷ (cmd ++ b'=' ∷ ping)) ++ 0 ∷ []) 13
    ≡ some (record parm { stream = 32 ∷ (uid ++ b'=' ∷ b'7' ∷ 32 ∷ (cmd ++ b'=' ∷ ping)) })
unfolding deserilize read_entries read_entry read_pair fill put name_less c_string strlen copy take
deserilize_run = refl

cmd-IsClean : IsClean cmd ping
cmd-IsClean = record {
  key_text = omega arith;
  key_lacks = omega arith;
  key_starts = omega arith;
  value_text = omega arith;
  value_lacks = omega arith;
}

uid-IsClean : IsClean uid (b'7' ∷ [])
uid-IsClean = record {
  key_text = omega arith;
  key_lacks = omega arith;
  key_starts = omega arith;
  value_text = omega arith;
  value_lacks = omega arith;
}

deserilize-serilize_example :
    deserilize new_text_parm ((serilize parm).0) (length (print_entries parm.entries))
    ≡ some ((serilize parm).1)
unfolding print_entries name_less
deserilize-serilize_example =
    deserilize-serilize parm new_text_parm ((refl, tt), (tt, tt)) (cmd-IsClean, (uid-IsClean, tt))
      (omega arith)

deserilize_cases_example :
    (IsOverlong line × (deserilize parm (line ++ 0 ∷ []) (length line) ≡ none))
    ⊎ ((IsOverlong line → ⊥)
        × ((q : TextParm) × (deserilize parm (line ++ 0 ∷ []) (length line) ≡ some q)
            × IsSorted q.entries
            × (q.stream ≡ line)))
deserilize_cases_example = deserilize_cases parm line [] (omega arith) (omega arith)

insert_uint_cases_example :
    ((4000000000 < 10 ^ 9)
      × ((q : TextParm) × (insert_uint parm uid 4000000000 ≡ some q)
          × (get_uint q uid ≡ 4000000000)))
    ⊎ ((10 ^ 9 ≤ 4000000000) × (insert_uint parm uid 4000000000 ≡ none))
insert_uint_cases_example = insert_uint_cases parm uid 4000000000 (omega arith)
