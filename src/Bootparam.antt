-- ===== src/Bootparam.antt =====
-- include/bootparam.h and include/edd.h: the packed structures that main.c fills, as the names and the
-- numbers of bytes of their members, in order.
pub mod Offsets
use tinu_os.Prelude.{ℕ, zero, suc, ◌+◌, ◌*◌, List, [], ◌∷◌, ltb, if◌then◌else◌, length}
use Prim.Native.String.{String}
use tinu_os.Edd.{eddmaxnr}

pub record Field : Type 0 where
  pub name : String
  pub bytes : ℕ

abbrev field : String → ℕ → Field
field name bytes = record { name = name; bytes = bytes }

-- `sizeof` of a packed structure.
unfoldable pub sizeof : List Field → ℕ
sizeof [] = 0
sizeof (f ∷ fs) = f.bytes + sizeof fs

-- Where member number `i` begins.
unfoldable pub offset : List Field → ℕ → ℕ
offset [] i = 0
offset (f ∷ fs) zero = 0
offset (f ∷ fs) (suc i) = f.bytes + offset fs i

-- A union is as long as the longest of its members.
unfoldable pub union : List (List Field) → ℕ
unfolding sizeof
union [] = 0
union (fs ∷ others) = let rest = union others in if ltb rest (sizeof fs) then sizeof fs else rest

abbrev pub e820max : ℕ
e820max = 128

abbrev pub e820entry : List Field
e820entry = field "addr" 8 ∷ field "size" 8 ∷ field "type" 4 ∷ []

abbrev pub setup_header : List Field
setup_header =
    field "setup_sects" 1
    ∷ field "root_flags" 2
    ∷ field "syssize" 4
    ∷ field "ram_size" 2
    ∷ field "vid_mode" 2
    ∷ field "root_dev" 2
    ∷ field "boot_flag" 2
    ∷ field "jump" 2
    ∷ field "header" 4
    ∷ field "version" 2
    ∷ field "realmode_swtch" 4
    ∷ field "start_sys" 2
    ∷ field "kernel_version" 2
    ∷ field "type_of_loader" 1
    ∷ field "loadflags" 1
    ∷ field "setup_move_size" 2
    ∷ field "code32_start" 4
    ∷ field "ramdisk_image" 4
    ∷ field "ramdisk_size" 4
    ∷ field "bootsect_kludge" 4
    ∷ field "heap_end_ptr" 2
    ∷ field "ext_loader_ver" 1
    ∷ field "ext_loader_type" 1
    ∷ field "cmd_line_ptr" 4
    ∷ field "initrd_addr_max" 4
    ∷ field "kernel_alignment" 4
    ∷ field "relocatable_kernel" 1
    ∷ field "min_alignment" 1
    ∷ field "xloadflags" 2
    ∷ field "cmdline_size" 4
    ∷ field "hardware_subarch" 4
    ∷ field "hardware_subarch_data" 8
    ∷ field "payload_offset" 4
    ∷ field "payload_length" 4
    ∷ field "setup_data" 8
    ∷ field "pref_address" 8
    ∷ field "init_size" 4
    ∷ field "handover_offset" 4
    ∷ []

abbrev pub interface_path : List (List Field)
interface_path =
    (field "base_address" 2 ∷ field "reserved0" 2 ∷ field "reserved1" 4 ∷ [])
    ∷ (field "bus_number" 1
        ∷ field "slot_number" 1
        ∷ field "function_number" 1
        ∷ field "channel_number" 1
        ∷ field "reserved0" 4
        ∷ [])
    ∷ (field "reserved0" 8 ∷ [])
    ∷ (field "reserved0" 8 ∷ [])
    ∷ (field "reserved0" 8 ∷ [])
    ∷ []

abbrev pub device_path : List (List Field)
device_path =
    (field "device" 1
      ∷ field "reserved0" 1
      ∷ field "reserved1" 2
      ∷ field "reserved3" 4
      ∷ field "reserved4" 8
      ∷ [])
    ∷ (field "device" 1
        ∷ field "logical_unit_number" 1
        ∷ field "reserved0" 1
        ∷ field "reserved1" 1
        ∷ field "reserved2" 4
        ∷ field "reserved3" 8
        ∷ [])
    ∷ (field "logical_unit_number" 8 ∷ field "reserved0" 2 ∷ field "reserved2" 4 ∷ [])
    ∷ (field "serial_number" 8 ∷ field "reserved0" 8 ∷ [])
    ∷ (field "eui" 8 ∷ field "reserved0" 8 ∷ [])
    ∷ (field "wwid" 8 ∷ field "logical_unit_number" 8 ∷ [])
    ∷ (field "identity_tag" 8 ∷ field "reserved0" 8 ∷ [])
    ∷ (field "array_number" 4 ∷ field "reserved0" 4 ∷ field "reserved1" 8 ∷ [])
    ∷ (field "port_number" 1
        ∷ field "port_multiplier_number" 1
        ∷ field "reserved0" 2
        ∷ field "reserved1" 4
        ∷ field "reserved2" 8
        ∷ [])
    ∷ (field "sas_address" 8 ∷ field "logical_unit_number" 8 ∷ [])
    ∷ (field "reserved0" 8 ∷ field "reserved2" 8 ∷ [])
    ∷ []

unfoldable pub edd_device_params : List Field
unfolding union
edd_device_params =
    field "length" 1
    ∷ field "info_flags" 1
    ∷ field "number_of_cylinders" 2
    ∷ field "number_of_heads" 2
    ∷ field "number_of_sectors" 2
    ∷ field "absolute_number_of_sectors" 4
    ∷ field "bytes_per_sector" 1
    ∷ field "optional_params" 2
    ∷ field "dpte_ptr" 4
    ∷ field "key" 2
    ∷ field "length_key" 1
    ∷ field "reserved0" 1
    ∷ field "reserved1" 2
    ∷ field "host_bus_type" 4
    ∷ field "interface_type" 8
    ∷ field "interface_path" (union interface_path)
    ∷ field "device_path" (union device_path)
    ∷ field "reserved0" 2
    ∷ field "checksum" 1
    ∷ []

unfoldable pub edd_info : List Field
unfolding edd_device_params
edd_info =
    field "version" 1
    ∷ field "physical_number_of_cylinders" 2
    ∷ field "physical_number_of_heads" 1
    ∷ field "sectors_per_track" 1
    ∷ field "params" (sizeof edd_device_params)
    ∷ []

unfoldable pub boot_params : List Field
unfolding sizeof edd_info
boot_params =
    field "ext_ramdisk_image" 4
    ∷ field "ext_ramdisk_size" 4
    ∷ field "ext_cmd_line_ptr" 4
    ∷ field "kbd_status" 1
    ∷ field "e820_entries" 1
    ∷ field "eddbuf_entries" 1
    ∷ field "edd_mbr_sig_buf_entries" 1
    ∷ field "e820_map" (sizeof e820entry * e820max)
    ∷ field "hdr" (sizeof setup_header)
    ∷ field "eddbuf" (sizeof edd_info * eddmaxnr)
    ∷ []

-- The numbers of the members that are read and written by themselves.
abbrev pub kbd_status : ℕ
kbd_status = 3

abbrev pub hdr : ℕ
hdr = 8

abbrev pub loadflags : ℕ
loadflags = 14

abbrev pub heap_end_ptr : ℕ
heap_end_ptr = 20
