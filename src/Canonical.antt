-- ===== src/Canonical.antt =====
-- src/redline/canonical.py: the canonical JSON text of a payload, and its hash.
-- `hashlib.sha256(text.encode("utf-8")).hexdigest()` is the parameter `digest`, a function of the
-- text's code points.
pub mod Dump
pub mod Numerals
pub mod Quotes
pub mod Unambiguous
pub mod Hash
pub mod Dict
pub mod Lookup
use playbook_redline.Base.{String, Bool}
use playbook_redline.Base.Int.{ℤ}

-- A payload after `normalize`: what `json.dumps` is given.
mutual
  pub data Json : Type 0 where
    null : Json
    bool : Bool → Json
    int : ℤ → Json
    str : String → Json
    arr : Items → Json
    obj : Fields → Json

  pub data Items : Type 0 where
    nil : Items
    cons : Json → Items → Items

  pub data Fields : Type 0 where
    end : Fields
    field : String → Json → Fields → Fields
