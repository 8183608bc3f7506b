-- ===== src/Model/Threads.antt =====
-- server/Model/ThreadInfos.cpp: the searches of `ThreadInfosList`.
pub mod Count
use aleakd.Base.{ℕ, Bool, ◌&&◌, Option, List, [], ◌∷◌, ◌==◌, leb, if◌then◌else◌}
use aleakd.Model.Records.{ThreadInfos}
use aleakd.Model.Objects.{holds}
use aleakd.Model.Operations.{find_first}

abbrev pub has_id : ℕ → ThreadInfos → Bool
has_id id t = t.thread_id == id

-- `ThreadInfosList::getById`
unfoldable pub get_by_id : List ThreadInfos → ℕ → List ℕ → Option ℕ
get_by_id objects id = find_first (holds objects (has_id id))

abbrev pub covers : ℕ → ℕ → ThreadInfos → Bool
covers id num t =
    (t.thread_id == id) && (leb t.creation_msg_num num && leb num t.last_alloc_msg_num)

-- `ThreadInfosList::getByIdAndMsgNum`
unfoldable pub get_by_id_and_msg_num : List ThreadInfos → ℕ → ℕ → List ℕ → Option ℕ
get_by_id_and_msg_num objects id num = find_first (holds objects (covers id num))

-- `ThreadInfosList::removeById`
unfoldable pub remove_by_id : List ThreadInfos → ℕ → List ℕ → List ℕ
remove_by_id objects id [] = []
remove_by_id objects id (r ∷ rs) =
    if holds objects (has_id id) r
    then remove_by_id objects id rs
    else r ∷ remove_by_id objects id rs
