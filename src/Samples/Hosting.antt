-- ===== src/Samples/Hosting.antt =====
-- The theorems on the hosts file, at a small file.
use pudge_gaming_manager.Prelude.{◌≡◌, refl, true, some, List, [], ◌∷◌, Text, codes, All}
use pudge_gaming_manager.Hosts.{
  HostsFile, Machine, is_empty, is_white, set_block, write_block, store_block, blocked_hosts,
}
use pudge_gaming_manager.Hosts.Reading.{IsHost}
use pudge_gaming_manager.Hosts.Setting.{IsHostsFile, set_block-blocked_hosts, set_block-last_wins}

abbrev one_file : HostsFile
one_file = record { W = Text; path = []; read = λ t. some t; write = λ t w. (true, t) }

one_file-IsHostsFile : IsHostsFile one_file
one_file-IsHostsFile t w ok = refl

abbrev foreign : Machine one_file
foreign = record { files = codes "127.0.0.1 shop"; audit_file = [] }

abbrev dota : Text
dota = codes "dota2.com"

abbrev www : Text
www = codes "www.dota2.com"

both_hosts : All IsHost (dota ∷ www ∷ [])
unfolding is_empty is_white
both_hosts = (record { filled = refl; solid = refl }, (record { filled = refl; solid = refl }, tt))

sets : (hosts : List Text) (m : Machine one_file) → (set_block one_file hosts m).0 ≡ true
unfolding set_block write_block store_block
sets hosts m = refl

set_block-blocked_hosts_example :
    blocked_hosts one_file (set_block one_file (dota ∷ www ∷ []) foreign).1 ≡ some (dota ∷ www ∷ [])
set_block-blocked_hosts_example =
    set_block-blocked_hosts one_file one_file-IsHostsFile dota (www ∷ []) foreign both_hosts
      (sets _ _)

set_block-last_wins_example :
    one_file.read (set_block one_file [] (set_block one_file (dota ∷ www ∷ []) foreign).1).1.files
    ≡ one_file.read (set_block one_file [] foreign).1.files
set_block-last_wins_example =
    set_block-last_wins one_file one_file-IsHostsFile dota (www ∷ []) [] foreign both_hosts
      (sets _ _) (sets _ _) (sets _ _)
