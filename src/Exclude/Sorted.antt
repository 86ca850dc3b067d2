-- ===== src/Exclude/Sorted.antt =====
-- exclude.cpp: the parts of items that descend strictly.
use ndn_cxx_logging.Base.{Bool, List, [], ◌∷◌, ◌++◌}
use ndn_cxx_logging.Block.{Block}
use ndn_cxx_logging.Exclude.{Item}
use ndn_cxx_logging.Exclude.Order.{AllAbove, AllBelow, IsDescending}

AllBelow-front :
    (above others : List Item) (c : Block)
    → AllBelow c (above ++ others)
    → AllBelow c above × AllBelow c others
AllBelow-front [] others c h = (tt, h)
AllBelow-front (item ∷ above) others c h =
    let (front, behind) = AllBelow-front above others c h.1 in ((h.0, front), behind)

pub IsDescending-front :
    (above others : List Item)
    → IsDescending (above ++ others)
    → IsDescending above × IsDescending others
IsDescending-front [] others d = (tt, d)
IsDescending-front ((key, any) ∷ above) others d =
    let (front, behind) = IsDescending-front above others d.1 in
    (((AllBelow-front above others key d.0).0, front), behind)

-- The keys in front of a key
pub IsDescending-above :
    (above : List Item) (key : Block) (any : Bool) (others : List Item)
    → IsDescending (above ++ ((key, any) ∷ others))
    → AllAbove key above
IsDescending-above [] key any others d = tt
IsDescending-above ((x, flag) ∷ above) key any others d = (
  (AllBelow-front above ((key, any) ∷ others) x d.0).1.0,
  IsDescending-above above key any others d.1,
)
