-- ===== src/Portmap/Merge.antt =====
-- tools/portmapgen/src/generate.cpp, `generatePortmap` and `generate`: what is written for a port map, and
-- how port maps and copied text are merged. The output is what the loops write, one entry for each port map
-- or copied text, as long as no assertion fails and no loop runs behind
-- the end of a list (`none`). Opening the output and the fixed lines at its start are not
-- modelled.
pub mod Order
pub mod Made
mod Tests
use avr_ha_lib.Prelude.{
  ℕ, zero, suc, ◌+◌, Option, none, some, Bool, true, false, List, [], ◌∷◌, ltb, if◌then◌else◌,
  length, map,
}
use mathlib.Core.Option
use avr_ha_lib.Portmap.Text.{Text}
use avr_ha_lib.Portmap.Uc.{Controller}
use avr_ha_lib.Portmap.Parser.Blocks.{controller_for}
use avr_ha_lib.Portmap.Layout.{Member, VportCode, generate_pin_blocks, generate_virtual_port, ◌>>=◌}
use avr_ha_lib.Portmap.Description.{VirtualPort, Property, Portmap, CopySection}

-- What is written for a port map: the structure of each pin block and the code of each virtual port,
-- with the properties as an enumeration; `none` is an assertion that fails, a loop that
-- runs behind the end of a list, or no controller.
pub record PortmapCode : Type 0 where
  pub identifier : Text
  pub controller : Controller
  pub properties : List Property
  pub pin_blocks : List (List Member)
  pub vports : List VportCode

abbrev pub generate_virtual_ports : Option Controller → List VirtualPort → Option (List VportCode)
generate_virtual_ports k [] = some []
generate_virtual_ports k (v ∷ vs) = do
  c ← generate_virtual_port k v
  rest ← generate_virtual_ports k vs
  some (c ∷ rest)

unfoldable pub generate_portmap : Option Controller → Portmap → Option PortmapCode
generate_portmap j pm = do
  k ← controller_for pm.target_controller j
  blocks ← generate_pin_blocks (some k) pm.pin_blocks
  vports ← generate_virtual_ports (some k) pm.vports
  some (record {
    identifier = pm.identifier;
    controller = k;
    properties = pm.properties;
    pin_blocks = blocks;
    vports = vports;
  })

-- What is written at a time.
pub data Part : Type 0 where
  portmap : Portmap → Part
  copied : CopySection → Part

abbrev pub portmaps : List Portmap → List Part
portmaps ps = map portmap ps

abbrev pub copies : List CopySection → List Part
copies cs = map copied cs

-- The parts in the order in which the first loop and the two after it come to them; a round of fuel for
-- each part.
unfoldable pub merge : ℕ → List Portmap → List CopySection → List Part
merge zero ps cs = []
merge (suc f) [] cs = copies cs
merge (suc f) (p ∷ ps) [] = portmaps (p ∷ ps)
merge (suc f) (p ∷ ps) (c ∷ cs) =
    let first = portmap p ∷ merge f ps (c ∷ cs) in
    let second = copied c ∷ merge f (p ∷ ps) cs in
    if ltb p.sequence_number c.sequence_number then first else second

-- What has been written for a part.
pub data Output : Type 0 where
  structure : PortmapCode → Output
  text : Text → Output

-- A port map goes to `generatePortmap`; copied text is written as it is.
abbrev pub write : Option Controller → Part → Option Output
write j (portmap pm) = Option.map structure (generate_portmap j pm)
write j (copied cs) = some (text cs.content)

-- The bodies of the loops, one part after another.
unfoldable pub write_all : Option Controller → List Part → Option (List Output)
write_all j [] = some []
write_all j (p ∷ ps) = do o ← write j p; rest ← write_all j ps; some (o ∷ rest)

-- `j` is the controller of the command line.
unfoldable pub generate : Option Controller → List Portmap → List CopySection → Option (List Output)
generate j ps cs = write_all j (merge (suc (length ps + length cs)) ps cs)
